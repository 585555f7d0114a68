-- ===== src/Order/Queues.antt =====
-- The RPC queues of the inventory service, by its handlers, are the queues that the order service
-- calls, when no message is lost.
use advanced_node.Common.{String, ◌≡◌, Bool, true, inl, inr, List, []}
use advanced_node.Exec.{Exec, Result, ok, thrown, try_catch}
use advanced_node.Exec.Ensures.{Ensures, Outcome, Ensures-try, Ensures-weaken}
use advanced_node.Shared.AddErrorHelper.{ErrorEntry, App, lift, add_error_helper}
use advanced_node.Inventory.Repository.{
  Inventory, InventoryTable, increment_reserved, decrement_reserved, decrement_both,
}
use advanced_node.Inventory.Changes.{demand, Changed}
use advanced_node.Inventory.Service
use advanced_node.Inventory.Service.{Item, StockResponse}
use advanced_node.Inventory.Messaging.{answer_error, handle_reserve, handle_release, handle_confirm}
use advanced_node.Inventory.Release.{release_stock-Changed, confirm_reservation-Changed}
use advanced_node.Inventory.Reserve.{reserve_from-lem}
use advanced_node.Order.StockQueue.{StockQueue}

module _ (t : InventoryTable) (stores : ErrorEntry → Bool) where
  -- If the answer reports success, the promise was kept.
  abbrev pub Keeps : (String → Inventory → Inventory) → t.Db → StockResponse → t.Db → Type 0
  Keeps f db r db' = r.success ≡ true → Changed t f db db'

  lifted :
      (f : String → Inventory → Inventory) (s : App t.Db) (r : Result StockResponse) (db : t.Db)
      → Outcome (Keeps f s.db) (λ _ _. Unit {0}) r db
      → Outcome (λ a s'. Keeps f s.db a s'.db) (λ _ _. Unit {0}) r (record s { db = db })
  lifted f s (ok a) db h = h
  lifted f s (thrown e) db h = h

  -- A handler answers whatever its service call does, and never throws.
  handled :
      (f : String → Inventory → Inventory) (m : Exec t.Db StockResponse) (api : String)
      (s : App t.Db)
      → Ensures (Keeps f s.db) (λ _ _. Unit {0}) (m s.db)
      → Ensures
          (λ a s'. Keeps f s.db a s'.db)
          (λ _ _. ⊥)
          (try_catch (lift m) (answer_error t stores api) s)
  unfolding add_error_helper
  handled f m api s h =
      Ensures-try (lift m) (answer_error t stores api) s
        (record { holds = lifted f s (m s.db).0 (m s.db).1 h.holds })
        λ e s' _. record { holds = λ success. absurd (cc) }

  reserves :
      (items : List Item) (db : t.Db)
      → Ensures
          (Keeps (λ p. increment_reserved (demand items p)) db)
          (λ _ _. Unit {0})
          (Service.reserve_stock t items db)
  unfolding Service.reserve_stock
  reserves items db =
      Ensures-weaken _ (reserve_from-lem t [] items db)
        (λ r db'. elim [
          | inl (e, changed, covers) ↦ λ success. changed
          | inr (item, e, undone, short) ↦ λ success. absurd (cc)
        ])
        (λ _ _ _. tt)

  -- What a handler of the three queues makes of the stock, by the service's change `f`.
  abbrev pub Answers :
      (String → Inventory → Inventory) → App t.Db → Result StockResponse × App t.Db → Type 0
  Answers f s = Ensures (λ a s'. Keeps f s.db a s'.db) (λ _ _. ⊥)

  pub handlers-Answers :
      (items : List Item) (s : App t.Db)
      → Answers (λ p. increment_reserved (demand items p)) s (handle_reserve t stores items s)
        × Answers (λ p. decrement_reserved (demand items p)) s (handle_release t stores items s)
        × Answers (λ p. decrement_both (demand items p)) s (handle_confirm t stores items s)
  unfolding handle_reserve handle_release handle_confirm
  handlers-Answers items s = (
    handled _ (Service.reserve_stock t items) "MessagingService.reserveStockRPC" s
        (reserves items s.db),
    handled _ (Service.release_stock t items) "MessagingService.releaseStockRPC" s (
        Ensures-weaken _ (release_stock-Changed t items s.db) (λ r db' h success. h.1)
          (λ _ _ _. tt)),
    handled _ (Service.confirm_reservation t items) "MessagingService.confirmReservationRPC" s (
        Ensures-weaken _ (confirm_reservation-Changed t items s.db) (λ r db' h success. h.1)
          (λ _ _ _. tt)),
  )

  abbrev pub queues : StockQueue
  queues = record {
    Stock = App t.Db;
    row = λ s. t.row s.db;
    reserve = handle_reserve t stores;
    release = handle_release t stores;
    confirm = handle_confirm t stores;
    reserve_done =
        λ items s. Ensures-weaken _ (handlers-Answers items s).0 (λ a s' h. h) (λ e s' h. tt);
    release_done =
        λ items s. Ensures-weaken _ (handlers-Answers items s).1 (λ a s' h. h) (λ e s' h. tt);
    confirm_done =
        λ items s. Ensures-weaken _ (handlers-Answers items s).2 (λ a s' h. h) (λ e s' h. tt);
  }

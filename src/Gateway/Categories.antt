-- ===== src/Gateway/Categories.antt =====
-- src/services/api-gateway/routes/v1/categories.routes.ts: the handlers behind their hooks. What a
-- schema makes of a body is an argument; `text` is a text as a value of a payload.
use advanced_node.Common.{String, Option}
use advanced_node.Exec.{Exec, Result}
use advanced_node.Shared.Reply.{Reply}
use advanced_node.Gateway.Parties.{JwtPayload}
use advanced_node.Gateway.Uuid.{is_valid_uuid}
use advanced_node.Gateway.Services
use advanced_node.Gateway.Services.{Object, Bus}
use advanced_node.Gateway.Products.{Content, as_answer}
use advanced_node.Gateway.Hooks.{Validated, replying, validated, checked, non_empty, behind_admin}

-- A request, with its header `authorization` where a hook reads it.
pub data Request (V : Type 0) : Type 0 where
  list : Request V
  show : String → Request V
  post : Option String → Validated (Object V) → Request V
  put : Option String → String → Validated (Object V) → Request V
  remove : Option String → String → Request V

abbrev pub bad_id : String
bad_id = "Invalid category ID format. Must be a valid UUID."

module _ {V D : Type 0} (b : Bus V D) (text : String → V)
    (verify_access : String → Result JwtPayload) where
  abbrev pub listing : Exec b.Net (Reply (Content D))
  listing =
      replying 200 "Categories fetched successfully" "Failed to fetch categories" as_answer
        (Services.get_categories b)

  abbrev pub showing : String → Exec b.Net (Reply (Content D))
  showing id =
      replying 200 "Category fetched successfully" "Failed to fetch category" as_answer
        (Services.get_category_by_id b (text id))

  abbrev pub creating : Object V → Exec b.Net (Reply (Content D))
  creating d =
      replying 201 "Category created successfully" "Failed to create category" as_answer
        (Services.create_category b d)

  abbrev pub updating : String → Object V → Exec b.Net (Reply (Content D))
  updating id d =
      replying 200 "Category updated successfully" "Failed to update category" as_answer
        (Services.update_category b (text id) d)

  abbrev pub deleting : String → Exec b.Net (Reply (Content D))
  deleting id =
      replying 200 "Category deleted successfully" "Failed to delete category" as_answer
        (Services.delete_category b (text id))

  unfoldable pub get_all : Exec b.Net (Reply (Content D))
  get_all = listing

  unfoldable pub get_by_id : String → Exec b.Net (Reply (Content D))
  get_by_id id = checked (is_valid_uuid id) bad_id (showing id)

  unfoldable pub create : Option String → Validated (Object V) → Exec b.Net (Reply (Content D))
  create header parsed = behind_admin verify_access header (validated parsed creating)

  unfoldable pub update :
      Option String → String → Validated (Object V) → Exec b.Net (Reply (Content D))
  update header id parsed =
      behind_admin verify_access header
        (checked (is_valid_uuid id) bad_id (validated parsed λ d. non_empty d (updating id d)))

  unfoldable pub delete : Option String → String → Exec b.Net (Reply (Content D))
  delete header id =
      behind_admin verify_access header (checked (is_valid_uuid id) bad_id (deleting id))

  unfoldable pub handle : Request V → Exec b.Net (Reply (Content D))
  handle list = get_all
  handle (show id) = get_by_id id
  handle (post header d) = create header d
  handle (put header id d) = update header id d
  handle (remove header id) = delete header id

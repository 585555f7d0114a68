-- ===== src/Lib.antt =====
-- An e-commerce back end of four services behind an API gateway: the inventory service keeps the
-- stock of each product, the order service places and cancels orders, and both talk over RabbitMQ
-- queues; the catalogue keeps products behind a cache. This library models these three services, the
-- gateway's accounts and routes, the notification service, and what they share.
--
-- The parts and their files:
--   Inventory     src/services/inventory. Repository holds the rows and the calls of Prisma;
--                 Service the methods of InventoryService; Controller the HTTP handlers and
--                 Messaging the RPC handlers. Changes, Release, Room, Reserve, Total, Bounds and
--                 Race are about the stock, Replies about the HTTP answers.
--   Order         src/services/order. Repository, Payment, Messaging, Service and Controller are the
--                 source's classes; World is the state they share (the orders, the stock behind the
--                 queues, the calls of the payment provider, the events) and StockQueue the
--                 interface to the three RPC queues, which Queues fills with the handlers of the
--                 inventory service. Settle, Create, Cancel, Refused and Runs are about orders,
--                 Replies about the HTTP answers.
--   Gateway       src/services/api-gateway. Accounts: Tables and Parties are the rows and who is
--                 trusted, Auth the routes' `try` blocks, Routes the handlers and Access the hooks
--                 for tokens and roles; Calls, Login, Register, Refresh, Google and Replies are about
--                 them, Memory holds accounts and tokens in memory. Services is the class that asks
--                 the other services; Retries and Twice are about it. Routes: Hooks holds the hooks,
--                 the test of an identifier's shape (Uuid) and the catch block as what is done on
--                 the way to a reply, Products and Categories the routes to the catalogue, Orders
--                 the routes that Proxy forwards over HTTP. Handled and Writes are about the routes
--                 to the catalogue, OrderReplies about those to orders, Discovery about the
--                 targets the proxy remembers.
--   Catalog       src/services/product-catalog: Tables are the rows and Redis, Cache and Products the
--                 cache, repository and service of products, Controller their HTTP handlers;
--                 Categories and CategoryController are those of categories; Messaging holds the
--                 RPC handlers and the events. Pages is about the numbers of a page, Coherence,
--                 Writes, Rows and Lists about the cache and the table, Answers about the RPC handlers,
--                 Replies and CategoryReplies about the HTTP answers; Memory is a catalogue in
--                 memory.
--   Notification  src/services/notification. Sockets is who is connected to it and in which room,
--                 Email the mails, Consumers the consumers of events, Bindings their queues and
--                 Workers the workers on jobs. Rooms and Heard are about the sockets, Grown, Notified
--                 and Delivered about events; Memory holds rooms in memory.
--   Rpc           src/shared/messaging/rabbitmq.client.ts. Client is the class with its pending calls
--                 and timers, Server the callbacks of the consumers, Wire what an answer is to the
--                 caller; Counts, Calls, Once and Answers are about calls and messages.
--   Shared        src/shared: ResponseCodes, Errors, Reply (the reply methods and the error handler of
--                 the services), AddErrorHelper, Catch (the handlers' catch block), Text and Query
--                 (the parameters of a list). Channels names exchanges and queues. Consistent is
--                 about replies, Decimal and QueryText about numbers written as text.
--   Http          what takes several services together: Routes is about all routes that reply by the
--                 shared plugin; Link joins the gateway's calls to the catalogue's handler of one
--                 product, and Arrives and Shown are about what a client sees through both; Mailed
--                 is about the mails that come of placing and cancelling orders.
--   Prisma        the database client, a third party: a table is a parameter with the laws of its
--                 documentation. Memory is a table that has them.
--   Exec          asynchronous methods as functions from a state to a result or an exception and
--                 the state after; Ensures is what a method leaves on either way out, Focus a method
--                 on one part of a state.
--   Common        names, lists and integers.
--
-- How code corresponds: a method `fooBar` is `foo_bar`; a `try` block is `try_catch`; what was
-- written before a throw stays written. Every call of the database may fail. An RPC call may fail or
-- time out whatever the other side did, and only an answer that reports success says what was done.
-- Loops over items are structural recursion, so no fuel is needed. Stock counters are signed
-- integers without a bound: a value out of the column's range is one of the database's failures.
-- Amounts of money are whole numbers, as the program computes no others.
--
-- Interleavings are modelled where a theorem says so (Inventory.Race, Rpc, Notification.Heard);
-- elsewhere requests are served one after another. Not modelled: the registration of a service with
-- Consul, logging, start-up, the notification service's reports and clean-up, the validation of
-- bodies (its outcome is an argument), timestamps and joins.
pub mod Catalog
pub mod Common
pub mod Exec
pub mod Gateway
pub mod Http
pub mod Inventory
pub mod Notification
pub mod Order
pub mod Prisma
pub mod Rpc
pub mod Shared

-- ===== src/Lib.antt =====
-- The finance service of a marketplace: it collects the orders of each seller into finances, computes
-- their invoices, and pays them out. The program is a Go service in src/; paths below are from the
-- repository's root.
--
-- Parts and files.
-- - Base: shared helpers (tests, lists over the native numbers, signed integers with the wrap-around
--   of int32 and int64, texts of numbers, float32 bit patterns, and `Outcome` for a Go call that may
--   return an error or panic). `Reply` is the answer of a future (src/infrastructure/future).
-- - Entities: the documents of src/domain/model/entities, one record for each struct. A pointer that
--   may be nil is an `Option`; a time is its nanoseconds since the epoch.
-- - Decimals: what the code uses of github.com/shopspring/decimal, as an instance argument; `IsExact`
--   states the laws of its exact addition.
-- - Calculation: FinanceCalcFactory (Factory) and ConvertToSellerFinance (Convert) of
--   src/domain/model/calculation/sellerFinanceCalc.go.
-- - Payment.Services: what the payment pipelines call (the payment, user and repository services, the
--   clock, the configuration), as a record of functions that may answer anything.
-- - Payment.Invoice: financeInvoiceCalculation of src/domain/scheduler/payment/paymentProcessTask.go.
--   Sums says what the totals of the calculation should be, Due the same of the amounts that the finance
--   holds, Rounds and Loops follow the loops, Result and Recorded state the outcome.
-- - Payment.Process: ExecutePipeline, financeTriggerValidation and financeStartPaymentProcess of the
--   same file; Stored and Requested prove what a saved finance has gone through.
-- - Payment.Tracking: financePaymentTracking, automaticPaymentHandler and
--   financeTrackingAutomaticPayment of src/domain/scheduler/payment/paymentTrackingTask.go, and
--   successive runs of the task on one finance. A `Run` says whether Save wrote the finance: the task
--   only logs its error, and the next run reads the old document. `PaymentRef` keeps the aliasing of the payment and the
--   history: an element of the history may point to the payment itself, and `stored` writes it out as
--   Save does.
-- - Pipelines: how fanOutPipelines and fanOutFinancePipeline share the work over channels.
-- - Order.FanOut: fanOutOrders of src/domain/scheduler/order/orderTask.go, one pipeline for each
--   seller.
-- - Order.Reduce, Order.Merge, Order.Results: reduceOrders, createUpdateFinance and the summary of
--   OrderSchedulerTask of src/domain/scheduler/order/orderTask.go. `OrderCell` keeps the aliasing of an
--   order that is appended more than once.
-- - Repository.Paging: FindByFilterWithPage of src/domain/model/repository/sellerFinance, over the count
--   and the search of the database, and the loops over the pages of findEligibleFinance and
--   findPaymentPendingFinance. Each round is a query of its own, since the collection may change in
--   between. `Interrupts` says when the context ends.
-- - Repository.Triggers: the operations of src/domain/model/repository/trigger and triggerHistory that
--   the scheduler uses, as functions of the database's state. `TriggerDatabase` is the MongoDB driver;
--   `HoldsTriggers` and `HoldsHistories` state what it documents.
-- - Repository.Finances: Save of src/domain/model/repository/sellerFinance, with the versions that keep
--   writers apart; `HoldsFinances` states what the database documents.
-- - Scheduler: doProcess of src/domain/scheduler/order/orderScheduler.go; Fires and Once say which ticks
--   start a run. Scheduler.Missed, Scheduler.Abandoned and Scheduler.Shrink: missedFireTriggerHandler,
--   abandonedTriggerHistoryHandler and updateSellerFinanceWithNewTriggerConfig of the same file, which
--   run when the service starts, and Scheduler.Init: SchedulerInit, which calls them. A difference of
--   times is taken exactly, where time.Sub ends at the range of int64, some 292 years.
-- - Repository.Documents: the other operations of the same repository. Catalogue is the map that it
--   promises to be, `Keeps` what the database documents, and Refined the sequences of calls.
-- - Converter: src/infrastructure/converter/converterImp.go: the payment status that clients see, the
--   list of a seller's finances (Listed), and the rows of the items of a finance (Rows, Collection).
-- - Start: what src/main.go checks of the configuration, and the schedulers that it makes of it; `none`
--   is os.Exit(1). Orders is about the order scheduler, Payments about the payment scheduler.
-- - Server.Mux: src/server/grpc_mux/muxImp.go, and HandleRequest of src/server/grpc/grpc.go.
-- - Server.Handlers: src/infrastructure/handler/imp/seller, and the paged searches behind it, as queries
--   under a sort.
-- - Server.Messages and Server.Convert: convertFinanceToRPC of src/server/grpc/grpc.go. Complete and Total
--   say which finances it can show, Read what a client gets back. The empty list stands for a slice that is
--   nil; an OrdersInfo that is empty and not nil, which the service never writes, is left out.
-- - Server.Trials: the two requests of the test API of src/server/grpc/grpc.go.
-- - Examples: concrete data, tests, and uses of the theorems at concrete inputs.
--
-- How the parts interact: a tick of the scheduler starts a run, which fans the orders out to one
-- pipeline for each seller; the order task writes the finances that the payment process picks up
-- when their window is over; what it saves the tracking task polls until it is closed or manual.
-- A request of a seller goes from HandleRequest over the multiplexer to a handler, which asks the
-- repository for a page and has the converter make the rows of the answer.
--
-- Bounds and fuel: the decimal digits of a number take fuel 20, enough for 64 bits. The loop
-- over the pages takes more fuel than there are pages (`Fetched`), and the loop over the missed runs
-- takes the nanoseconds from the first of them to now, since an interval is positive (`Handled`). All
-- other loops are recursions on lists.
--
-- Not modelled: the gRPC clients, listening and interceptors, reading the environment, the worker pool
-- (a copy of a library), the fan-in between the stages of the pipelines, and the stewards
-- that restart the tasks.
pub mod Base
pub mod Entities
pub mod Decimals
pub mod Calculation
pub mod Payment
pub mod Order
pub mod Converter
pub mod Pipelines
pub mod Repository
pub mod Scheduler
pub mod Start
pub mod Server
pub mod Examples

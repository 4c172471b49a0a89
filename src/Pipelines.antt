-- ===== src/Pipelines.antt =====
-- How the pipelines share their work: fanOutPipelines of domain/scheduler/order/orderTask.go and
-- domain/scheduler/payment/paymentProcessTask.go, and fanOutFinancePipeline of
-- domain/scheduler/payment/paymentTrackingTask.go. A channel is the list of what is sent to it; that
-- the context ends is that the list of what is received is cut.
pub mod Shared
use finance_service.Base.{ℕ, zero, suc, ◌+◌, List, [], ◌∷◌, ◌++◌, length, ltb, if◌then◌else◌}
use finance_service.Base.Outcome.{Outcome, ok, panic, ◌>>=◌}

-- the variables of the loop: the channels made so far, index and initIndex
pub record FanOut (A : Type 0) : Type 0 where
  pub channels : List (List A)
  pub index : ℕ
  pub init_index : ℕ

-- `if index >= len(channels) { index = 0 }`
abbrev pub turn : ℕ → ℕ → ℕ
turn index count = if ltb index count then index else 0

module _ {A : Type 0} where
  -- `channels[index] <- a`
  unfoldable pub send : ℕ → A → List (List A) → Outcome (List (List A))
  send i a [] = panic
  send zero a (c ∷ cs) = ok ((c ++ (a ∷ [])) ∷ cs)
  send (suc i) a (c ∷ cs) = do cs' ← send i a cs; ok (c ∷ cs')

  -- `if initIndex < cap(channels) { … }`
  abbrev pub open_channel : ℕ → FanOut A → FanOut A
  open_channel capacity f =
      if ltb f.init_index capacity
      then record f { channels = f.channels ++ ([] ∷ []); init_index = f.init_index + 1 }
      else f

  -- the body of the loop
  unfoldable pub share : ℕ → FanOut A → A → Outcome (FanOut A)
  unfolding send
  share capacity f a =
      let g = open_channel capacity f in
      let i = turn g.index (length g.channels) in
      send i a g.channels >>= λ cs. ok (record g { channels = cs; index = i + 1 })

  unfoldable pub share_all : ℕ → FanOut A → List A → Outcome (FanOut A)
  unfolding share
  share_all capacity f [] = ok f
  share_all capacity f (a ∷ as') = share capacity f a >>= λ g. share_all capacity g as'

  -- the whole loop, for channels of this capacity
  unfoldable pub fan_out_pipelines : ℕ → List A → Outcome (FanOut A)
  unfolding share_all
  fan_out_pipelines capacity items =
      share_all capacity (record { channels = []; index = 0; init_index = 0 }) items

-- ===== src/Start/Payments/Intervals.antt =====
-- The intervals of the payment scheduler's tasks.
use finance_service.Base.{
  ℕ, ◌≡◌, ◌≢◌, refl, sym, ap, ◌∙◌, subst, inl, inr, false, Bool-cases, ◌*◌, ◌≤◌, length, map, All,
  List, [], ◌∷◌, some, arith, String, suc,
}
use finance_service.Base.Int.{ℤ, pos, negsuc, pos_part, int64, int64_fits, ◌<ℤ◌, ◌≤ℤ◌, eqb_ℤ}
use finance_service.Base.Outcome.{some-injective}
use finance_service.Entities.{TimeUnit}
use finance_service.Start.{Texts, AppConfig, >>=-eq-some, in_unit, positive_in, positive_in-some}
use finance_service.Start.Orders.{order_time_unit}
use finance_service.Start.Payments.{
  StateConfig, PaymentScheduler, state_config, state_list, with_interval, new_payment_scheduler,
  payment_settings,
}

-- A positive number that fits is not zero.
int64-positive : (n : ℕ) → 1 ≤ n → n ≤ 9_223_372_036_854_775_807 → int64 (pos n) ≢ pos 0
int64-positive n above below e =
    let same : int64 (pos n) ≡ pos n = int64_fits (pos n) below (omega arith) in
    let zero_parts : n ≡ 0 = ap pos_part (sym same ∙ e) in omega arith

-- A positive number of hours or minutes that fits 64 bits in nanoseconds is not zero.
in_unit-positive : (u : TimeUnit) (n : ℤ) → pos 0 <ℤ n → n ≤ℤ pos 2_562_047 → in_unit u n ≢ pos 0
in_unit-positive TimeUnit.hour_unit (pos n) above below e =
    int64-positive (3_600_000_000_000 * n) (omega arith) (omega arith) e
in_unit-positive TimeUnit.minute_unit (pos n) above below e =
    int64-positive (60_000_000_000 * n) (omega arith) (omega arith) e
in_unit-positive u (negsuc n) above below e = ground arith

not_zero : (n : ℤ) → eqb_ℤ n (pos 0) ≡ false → n ≢ pos 0
not_zero (pos n) h same = ground arith
not_zero (negsuc n) h same = cc

with_interval-nonzero :
    (i : ℤ) (config : StateConfig) → i ≢ pos 0 → (with_interval i config).schedule_interval ≢ pos 0
with_interval-nonzero i config h = elim (Bool-cases (eqb_ℤ config.schedule_interval (pos 0))) [
  | inl zero ↦ rw zero h
  | inr some_time ↦ rw some_time (not_zero config.schedule_interval some_time)
]

length-map : (f : StateConfig → StateConfig) (xs : List StateConfig) → length (map f xs) ≡ length xs
length-map f [] = refl
length-map f (x ∷ xs) = ap suc (length-map f xs)

with_interval-All :
    (i : ℤ) (configs : List StateConfig)
    → i ≢ pos 0
    → All (λ config. config.schedule_interval ≢ pos 0) (map (with_interval i) configs)
with_interval-All i [] h = tt
with_interval-All i (config ∷ configs) h =
    (with_interval-nonzero i config h, with_interval-All i configs h)

state_list-length :
    (t : Texts) (u : TimeUnit) (parts : List String) (configs : List StateConfig)
    → state_list t u parts ≡ some configs
    → length configs ≡ length parts
unfolding state_list
state_list-length t u [] configs h = ap length (sym (some-injective h))
state_list-length t u (part ∷ parts) configs h =
    let (config, _, h1) = >>=-eq-some (state_config t u (t.split part ":")) _ h in
    let (rest, hr, h2) = >>=-eq-some (state_list t u parts) _ h1 in
    ap length (sym (some-injective h2)) ∙ ap suc (state_list-length t u parts rest hr)

new_scheduler-nonzero :
    (interval steward worker : ℤ) (states : List StateConfig) (n : ℕ)
    → interval ≢ pos 0
    → length states ≡ n
    → (length (new_payment_scheduler interval steward worker states).states ≡ n)
      × All
          (λ config. config.schedule_interval ≢ pos 0)
          (new_payment_scheduler interval steward worker states).states
unfolding new_payment_scheduler
new_scheduler-nonzero interval steward worker states n h e =
    (length-map (with_interval interval) states ∙ e, with_interval-All interval states h)

-- Where the interval of the payment scheduler is at most 2,562,047, accepted settings give the scheduler
-- one task for each part of the configured text, and no task has the interval zero.
pub payment_settings-nonzero :
    (t : Texts) (c : AppConfig) (p : PaymentScheduler)
    → c.finance_payment_scheduler_interval ≤ℤ pos 2_562_047
    → payment_settings t c ≡ some p
    → (length p.states ≡ length (t.split c.finance_payment_scheduler_states ";"))
      × All (λ config. config.schedule_interval ≢ pos 0) p.states
unfolding payment_settings
payment_settings-nonzero t c p small h =
    let (unit, _, h1) = >>=-eq-some (order_time_unit t c.finance_payment_scheduler_time_uint) _ h in
    let (interval, hi, h2) =
      >>=-eq-some (positive_in unit c.finance_payment_scheduler_interval) _ h1 in
    let (steward, _, h3) =
      >>=-eq-some (positive_in unit c.finance_payment_scheduler_parent_worker_timeout) _ h2 in
    let (worker, _, h4) =
      >>=-eq-some (positive_in unit c.finance_payment_scheduler_worker_timeout) _ h3 in
    let (states, hs, h5) =
      >>=-eq-some (state_list t unit (t.split c.finance_payment_scheduler_states ";")) _ h4 in
    let (above, scaled_interval) = positive_in-some unit _ interval hi in
    subst
      (λ (x : PaymentScheduler).
        (length x.states ≡ length (t.split c.finance_payment_scheduler_states ";"))
        × All (λ config. config.schedule_interval ≢ pos 0) x.states)
      (some-injective h5)
      (new_scheduler-nonzero interval steward worker states _
        (λ zero. in_unit-positive unit _ above small (sym scaled_interval ∙ zero))
        (state_list-length t unit _ states hs))

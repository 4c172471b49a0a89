-- ===== src/Start/Orders/Offset.antt =====
-- ParseTime of main.go asks fmt.Sscanf for three items where its format has two.
use finance_service.Base.{inl, inr, ◌≡◌, refl, sym, ap, ◌∙◌, false, some, String, arith, Bool-cases}
use finance_service.Base.Int.{ℤ, pos, ◌≤ℤ◌, eqb_ℤ}
use finance_service.Base.Outcome.{some-injective}
use finance_service.Entities.{TimeUnit, TriggerPointType}
use finance_service.Start.{Texts, AppConfig, exit_if->>, in_unit}
use finance_service.Start.Orders.Accepted.{order_settings-Accepted}
use finance_service.Start.Orders.{OrderScheduler, parse_time, point_offset, order_settings}
use text.Mathlib.Text.{◌==◌ as str_eq}

not_three : (n : ℤ) → n ≤ℤ pos 2 → eqb_ℤ n (pos 3) ≡ false
not_three n h = ground arith

-- With at most two items every text parses to zero minutes.
parse_time_lem :
    (t : Texts)
    → ((st : String) → (t.scan_time st).count ≤ℤ pos 2)
    → (st : String) → (parse_time t st).0 ≡ pos 0
unfolding parse_time
parse_time_lem t two st = elim (Bool-cases (t.scan_time st).failed) [
  | inl failed ↦ rw failed refl
  | inr parsed ↦ rw (parsed, not_three (t.scan_time st).count (two st)) refl
]

point_offset_lem :
    (t : Texts)
    → ((st : String) → (t.scan_time st).count ≤ℤ pos 2)
    → (p : TriggerPointType) (point : String) (offset : ℤ × String)
    → point_offset t p point ≡ some offset
    → offset.0 ≡ pos 0
unfolding point_offset
point_offset_lem t two TriggerPointType.absolute point offset h =
    let (_, h1) = exit_if->> (str_eq point "") _ h in
    let (_, h2) = exit_if->> (parse_time t point).1 _ h1 in
    ap (λ x. x.0) (sym (some-injective h2))
    ∙ ap (in_unit TimeUnit.minute_unit) (parse_time_lem t two point)
point_offset_lem t two TriggerPointType.relative point offset h =
    let (_, h1) = exit_if->> (str_eq point "") _ h in ap (λ x. x.0) (sym (some-injective h1))

-- Where fmt.Sscanf never parses more items than the two of the format "%d:%d", accepted settings have
-- the offset zero, whatever trigger point they name.
pub order_settings_offset :
    (t : Texts)
    → ((st : String) → (t.scan_time st).count ≤ℤ pos 2)
    → (c : AppConfig) (result : AppConfig × OrderScheduler) → order_settings t c ≡ some result
    → result.1.finance_trigger_offset_point ≡ pos 0
order_settings_offset t two c result h =
    let a = order_settings-Accepted t c result h in
    a.offset_taken ∙ point_offset_lem t two a.point _ a.offset a.offset_found

-- ===== src/Repository/Triggers/Versions.antt =====
-- The versions by which Update of the triggers keeps writers apart.
use finance_service.Base.{
  ℕ, ◌+◌, ◌%◌, ◌≡◌, ◌≢◌, refl, sym, ap, ◌∙◌, Bool, true, false, ◌&&◌, String, Option, none, some,
  ◌==◌, if◌then◌else◌, arith,
}
use finance_service.Base.Outcome.{some-injective, ErrorCode, Reply, value, failure, not_found}
use finance_service.Entities.{Time, FinanceTrigger}
use finance_service.Repository.Triggers.{
  TriggerDatabase, UpdateResult, update, update_reply, next_version, HoldsTriggers,
}

pub version_moves : (v : ℕ) → (v + 1) % 18_446_744_073_709_551_616 ≢ v
version_moves v e = omega arith

-- an update that succeeds has matched
choice_matched :
    {A : Type 0} (t u : A) (b : Bool)
    → (if b then value t else failure not_found) ≡ value u
    → b ≡ true
choice_matched t u true e = refl
choice_matched t u false e = cc

module _ {A S : Type 0} where
  pub reply_matched :
      (t u : A) (s' : S) (x : Option UpdateResult × S)
      → ◌≡◌ {A = Reply A × S} (update_reply t x.0, x.1) (value u, s')
      → (r : UpdateResult) × (x ≡ (some r, s')) × (r.matched_count ≡ 1)
  reply_matched t u s' (none, s2) e = cc
  reply_matched t u s' (some r, s2) e =
      let both : ((r.matched_count == 1) && (r.modified_count == 1)) ≡ true =
        choice_matched t u _ (ap (λ (y : Reply A × S). y.0) e) in
      (r, cc, ground arith)

  pub fails_otherwise :
      (x : Reply A × S)
      → ((u : A) (s' : S) → x ≢ (value u, s'))
      → (code : ErrorCode) × (s' : S) × (x ≡ (failure code, s'))
  fails_otherwise (failure code, s') never = (code, s', refl)
  fails_otherwise (value u, s') never = absurd (never u s' refl)

module _ {S : Type 0} (db : TriggerDatabase S) where
  update_matched :
      (now : Time) (t u : FinanceTrigger) (s s' : S)
      → update db now t s ≡ (value u, s')
      → (r : UpdateResult) × (db.update_trigger t.name t.version (next_version now t) s
          ≡ (some r, s'))
        × (r.matched_count ≡ 1)
  unfolding update
  update_matched now t u s s' e = reply_matched (next_version now t) u s' _ e

  -- after an update the stored trigger has another version
  pub update_reads :
      (trigger_of : String → S → Option FinanceTrigger)
      → HoldsTriggers db trigger_of
      → (now : Time) (t t' : FinanceTrigger) (s s' : S) → update db now t s ≡ (value t', s')
      → (read : FinanceTrigger) × (trigger_of t.name s' ≡ some read) × (read.version ≢ t.version)
  update_reads trigger_of holds now t t' s s' e =
      let (r, asked, matched) = update_matched now t t' s s' e in
      let (old, read, was, version, is, back) = holds.matches t.version _ s s' r asked matched in
      (read, is, λ same. version_moves t.version (sym back.version ∙ same))

  -- an update from a version that is not stored fails
  pub stale_fails :
      (trigger_of : String → S → Option FinanceTrigger)
      → HoldsTriggers db trigger_of
      → (now : Time) (u read : FinanceTrigger) (s : S) → trigger_of u.name s ≡ some read
      → read.version ≢ u.version
      → (code : ErrorCode) × (s' : S) × (update db now u s ≡ (failure code, s'))
  stale_fails trigger_of holds now u read s is differs =
      fails_otherwise (update db now u s) λ u' s2 e.
        let (r, asked, matched) = update_matched now u u' s s2 e in
        let (old, new, was, version, is2, back) = holds.matches u.version _ s s2 r asked matched in
        differs (ap (λ (x : FinanceTrigger). x.version) (some-injective (sym is ∙ was)) ∙ version)

  -- When the database holds one trigger of each name and an update of a trigger has succeeded, then a
  -- second update of that name from the same version fails, whatever it writes: no update is lost.
  pub update_conflicts :
      (trigger_of : String → S → Option FinanceTrigger)
      → HoldsTriggers db trigger_of
      → (now now' : Time) (t t' u : FinanceTrigger) (s s' : S) → update db now t s ≡ (value t', s')
      → u.name ≡ t.name
      → u.version ≡ t.version
      → (code : ErrorCode) × (s2 : S) × (update db now' u s' ≡ (failure code, s2))
  update_conflicts trigger_of holds now now' t t' u s s' e named same =
      let (read, is, differs) = update_reads trigger_of holds now t t' s s' e in
      stale_fails trigger_of holds now' u read s' (ap (λ n. trigger_of n s') named ∙ is)
        λ equal. differs (equal ∙ same)

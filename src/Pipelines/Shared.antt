-- ===== src/Pipelines/Shared.antt =====
-- What the pipelines receive.
use mathlib.Core.List.{Perm, perm_middle, append-nil, append_assoc}
use mathlib.Core.List.Perm
use finance_service.Base.{
  ℕ, zero, suc, ◌+◌, ◌≤◌, ◌<◌, ◌≡◌, refl, sym, ap, subst, ◌∙◌, inl, inr, List, [], ◌∷◌, ◌++◌,
  length, length-append, min, ltb, Bool-cases, arith,
}
use finance_service.Base.Outcome.{ok, >>=-ok}
use finance_service.Pipelines.{
  FanOut, turn, open_channel, send, share, share_all, fan_out_pipelines,
}

turn_lt : (index count : ℕ) → 0 < count → turn index count < count
turn_lt index count some_channel = ground arith

module _ {A : Type 0} where
  -- all that is sent, channel by channel
  abbrev pub all_of : List (List A) → List A
  all_of [] = []
  all_of (c ∷ cs) = c ++ all_of cs

  all_of-open : (cs : List (List A)) → all_of (cs ++ ([] ∷ [])) ≡ all_of cs
  all_of-open [] = refl
  all_of-open (c ∷ cs) = ap (λ (t : List A). c ++ t) (all_of-open cs)

  send_adds :
      (i : ℕ) (a : A) (cs : List (List A))
      → i < length cs
      → (cs' : List (List A)) × (send i a cs ≡ ok cs')
        × Perm (all_of cs') (a ∷ all_of cs)
        × (length cs' ≡ length cs)
  unfolding send
  send_adds i a [] lt = absurd (omega arith)
  send_adds zero a (c ∷ cs) lt = (
    (c ++ (a ∷ [])) ∷ cs,
    refl,
    subst (λ (t : List A). Perm t (a ∷ (c ++ all_of cs)))
        (sym (append_assoc c (a ∷ []) (all_of cs))) (perm_middle c (all_of cs)),
    refl,
  )
  send_adds (suc i) a (c ∷ cs) lt =
      let (cs', sent, perm, same) = send_adds i a cs (omega arith) in
      (
        c ∷ cs',
        >>=-ok (send i a cs) (λ ds. ok (c ∷ ds)) sent,
        Perm.trans (Perm.append_left c perm) (perm_middle c (all_of cs)),
        omega (arith, same),
      )

  -- initIndex counts the channels, which are at most the capacity
  record IsOpen (capacity : ℕ) (f : FanOut A) : Type 0 where
    counted : f.init_index ≡ length f.channels
    bounded : f.init_index ≤ capacity

  record IsOpened (capacity : ℕ) (f g : FanOut A) : Type 0 where
    same : all_of g.channels ≡ all_of f.channels
    counted : g.init_index ≡ length g.channels
    number : g.init_index ≡ min capacity (f.init_index + 1)
    some_channel : 0 < length g.channels

  open_channel-IsOpened :
      (capacity : ℕ) (f : FanOut A)
      → 0 < capacity
      → IsOpen capacity f
      → IsOpened capacity f (open_channel capacity f)
  open_channel-IsOpened capacity f positive is = elim (Bool-cases (ltb f.init_index capacity)) [
    | inl more ↦ rw more (record {
      same = all_of-open f.channels;
      counted = omega (arith, is.counted, length-append f.channels ([] ∷ []));
      number = ground arith;
      some_channel = omega (arith, length-append f.channels ([] ∷ []));
    })
    | inr full ↦ rw full (record {
      same = refl;
      counted = is.counted;
      number = ground (arith, is.bounded);
      some_channel = ground (arith, is.counted, is.bounded);
    })
  ]

  share_adds :
      (capacity : ℕ) (f : FanOut A) (a : A)
      → 0 < capacity
      → IsOpen capacity f
      → (g : FanOut A) × (share capacity f a ≡ ok g)
        × Perm (all_of g.channels) (a ∷ all_of f.channels)
        × IsOpen capacity g
        × (g.init_index ≡ min capacity (f.init_index + 1))
  unfolding share
  share_adds capacity f a positive is =
      let opened = open_channel-IsOpened capacity f positive is in
      let h : FanOut A = open_channel capacity f in
      let i : ℕ = turn h.index (length h.channels) in
      let (cs, sent, perm, same) =
        send_adds i a h.channels (turn_lt h.index (length h.channels) opened.some_channel) in
      (
        record h { channels = cs; index = i + 1 },
        >>=-ok (send i a h.channels) (λ ds. ok (record h { channels = ds; index = i + 1 })) sent,
        subst (λ (t : List A). Perm (all_of cs) (a ∷ t)) opened.same perm,
        record { counted = opened.counted ∙ sym same; bounded = omega (arith, opened.number) },
        opened.number,
      )

  share_all_adds :
      (capacity : ℕ) (f : FanOut A) (items : List A)
      → 0 < capacity
      → IsOpen capacity f
      → (g : FanOut A) × (share_all capacity f items ≡ ok g)
        × Perm (all_of g.channels) (items ++ all_of f.channels)
        × (length g.channels ≡ min capacity (f.init_index + length items))
  unfolding share_all
  share_all_adds capacity f [] positive is =
      (f, refl, Perm.refl (all_of f.channels), omega (arith, is.counted, is.bounded))
  share_all_adds capacity f (a ∷ items) positive is =
      let (g, shared, perm, is', number) = share_adds capacity f a positive is in
      let (h, rest, perm', count) = share_all_adds capacity g items positive is' in
      (
        h,
        >>=-ok (share capacity f a) (λ g'. share_all capacity g' items) shared ∙ rest,
        Perm.trans perm'
            (Perm.trans (Perm.append_left items perm) (perm_middle items (all_of f.channels))),
        omega (arith, number, count),
      )

  -- When the capacity is positive, then the fan-out panics at no item, sends each item exactly once
  -- over all channels, and makes as many channels as there are items, but no more than the capacity.
  pub fan_out_pipelines_lem :
      (capacity : ℕ) (items : List A)
      → 0 < capacity
      → (f : FanOut A) × (fan_out_pipelines capacity items ≡ ok f)
        × Perm (all_of f.channels) items
        × (length f.channels ≡ min capacity (length items))
  unfolding fan_out_pipelines
  fan_out_pipelines_lem capacity items positive =
      let (f, shared, perm, count) =
        share_all_adds capacity (record { channels = []; index = 0; init_index = 0 }) items positive
          (record { counted = refl; bounded = omega arith }) in
      (
        f,
        shared,
        subst (λ (t : List A). Perm (all_of f.channels) t) (append-nil items) perm,
        omega (arith, count),
      )

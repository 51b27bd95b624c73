-- ===== src/UrlService/Reserve.antt =====
-- How `CreateShortURL` of services/url_service.go reserves a code, over a store with a contract.
use native.Mathlib.Decide.{ℕ_discrete}
use goshorty.Prelude.{
  ◌⊎◌, ℕ, zero, suc, ◌+◌, ◌≤◌, ◌<◌, String, ◌≡◌, ◌≢◌, refl, true, false, none, Result, ok, err,
  arith, str_eq, str_eq_iff, is_some, inl, inr, sym, ◌∙◌,
}
use goshorty.Prelude.Int.{ℤ}
use goshorty.Random.{generate_short_code, InRange}
use goshorty.Random.Alphabet.{generate_short_code-ne-empty}
use goshorty.Models.{UrlData}
use goshorty.Storage.{storage_failed}
use goshorty.UrlStore.{UrlStore, StoreModel, UrlStoreLaws, SameView, IsFiled}
use goshorty.UrlService.{
  ServiceError, code_taken, not_allocated, store_error, Entropy, code_length_at, reserve_custom,
  reserve_random,
}

not_empty : (code : String) → code ≢ "" → str_eq code "" ≡ false
not_empty code h = ground (arith, str_eq_iff code "")

module _ {E S : Type 0} (store : UrlStore E S) (model : StoreModel E S)
    (laws : UrlStoreLaws model store) where
  open model use {view, time, IsDown, Refuses}

  abbrev with_code : UrlData → String → UrlData
  with_code u code = record u { short_code = code }

  -- An attempt filed `u` under the code picked for it, which was free at the time of the attempt's call,
  -- and nothing else changed.
  pub record Filed (entropy : Entropy E) (Picked : ℕ → String → Type 0) (u : UrlData) (s s' : S)
      : Type 0 where
    pub attempt : ℕ
    pub has_code : str_eq u.short_code "" ≡ false
    pub picked : Picked attempt u.short_code
    pub is_filed : IsFiled model (time (entropy.clock attempt)) u s s'

  -- An attempt to file `u` got an error from the store, which did not take the URL, or was down and may
  -- have filed it.
  pub record Lost (entropy : Entropy E) (Picked : ℕ → String → Type 0) (u : UrlData) (s s' : S)
      : Type 0 where
    pub attempt : ℕ
    pub short_code : String
    pub picked : Picked attempt short_code
    pub met : S
    pub nothing_before : SameView model s met
    pub failed :
        (Refuses (with_code u short_code) met × SameView model s s')
        ⊎ (IsDown (entropy.clock attempt)
            × (SameView model s s'
                ⊎ IsFiled model (time (entropy.clock attempt)) (with_code u short_code) s s'))

  -- The result of reserving a code for `u`: filed under it, refused with nothing changed, or the
  -- store's error.
  abbrev pub Reserved :
      Entropy E
      → (ℕ → String → Type 0)
      → (ServiceError → Type 0)
      → UrlData
      → S
      → Result ServiceError UrlData × S
      → Type 0
  Reserved entropy Picked Why u s (ok u', s') =
      (u' ≡ with_code u u'.short_code) × Filed entropy Picked u' s s'
  Reserved entropy Picked Why u s (err e, s') =
      (Why e × SameView model s s')
      ⊎ ((e ≡ store_error storage_failed) × Lost entropy Picked u s s')

  Lost-at :
      (entropy : Entropy E) (Picked : ℕ → String → Type 0) (i : ℕ) (u : UrlData) (code : String)
      (s s' : S)
      → Picked i code
      → let e = entropy.clock i in
        let u' = with_code u code in
        (Refuses u' s × SameView model s s')
          ⊎ (IsDown e × (SameView model s s' ⊎ IsFiled model (time e) u' s s'))
        → Lost entropy Picked u s s'
  Lost-at entropy Picked i u code s s' picked failed = record {
    attempt = i;
    short_code = code;
    picked = picked;
    met = s;
    nothing_before = λ t j. refl;
    failed = failed;
  }

  pub reserve_custom-Reserved :
      (entropy : Entropy E) (Picked : ℕ → String → Type 0) (code : String) (u : UrlData) (s : S)
      → str_eq code "" ≡ false
      → Picked 0 code
      → Reserved entropy Picked
          (λ e. (e ≡ code_taken code) × (is_some (view (time (entropy.clock 0)) s code) ≡ true))
          u
          s
          (reserve_custom store entropy code u s)
  unfolding reserve_custom
  reserve_custom-Reserved entropy Picked code u s named picked =
      let e = entropy.clock 0 in
      let u' = with_code u code in
      elim (laws.set-Outcome e u' s) [
        | inl (answer, filed) ↦
            rw (answer, reserve_custom)
              (refl, record { attempt = 0; has_code = named; picked = picked; is_filed = filed })
        | inr (inl (answer, taken, same)) ↦ rw (answer, reserve_custom) (inl ((refl, taken), same))
        | inr (inr (answer, failed)) ↦
            let s' = (store.set_if_absent e code u' s).1 in
            rw (answer, reserve_custom)
              (inr (refl, Lost-at entropy Picked 0 u code s s' picked failed))
      ]

  -- An attempt that found its code taken does not change what the next one meets.
  SameView-trans : (s s₁ s' : S) → SameView model s s₁ → SameView model s₁ s' → SameView model s s'
  SameView-trans s s₁ s' same later t j = later t j ∙ same t j

  IsFiled-after :
      (now : ℤ) {u : UrlData} {s s₁ s' : S}
      → SameView model s s₁
      → IsFiled model now u s₁ s'
      → IsFiled model now u s s'
  IsFiled-after now same f = record {
    was_free = sym (same now _) ∙ f.was_free;
    stands = λ t j. ground (arith, same t j, f.stands t j);
  }

  module _ (entropy : Entropy E) (Picked : ℕ → String → Type 0) where
    Filed-after :
        {u : UrlData} {s s₁ s' : S}
        → SameView model s s₁
        → Filed entropy Picked u s₁ s'
        → Filed entropy Picked u s s'
    Filed-after same f = record {
      attempt = f.attempt;
      has_code = f.has_code;
      picked = f.picked;
      is_filed = IsFiled-after (time (entropy.clock f.attempt)) same f.is_filed;
    }

    Lost-after :
        (u : UrlData) (code : String) {s s₁ s' : S}
        → SameView model s s₁
        → Lost entropy Picked (with_code u code) s₁ s'
        → Lost entropy Picked u s s'
    Lost-after u code {s} {s₁} {s'} same l = record {
      attempt = l.attempt;
      short_code = l.short_code;
      picked = l.picked;
      met = l.met;
      nothing_before = SameView-trans s s₁ l.met same l.nothing_before;
      failed = elim l.failed [
        | inl (refused, later) ↦ inl (refused, SameView-trans s s₁ s' same later)
        | inr (down, inl later) ↦ inr (down, inl (SameView-trans s s₁ s' same later))
        | inr (down, inr filed) ↦
            inr (down, inr (IsFiled-after (time (entropy.clock l.attempt)) same filed))
      ];
    }

    Reserved-after :
        (Why : ServiceError → Type 0) (u : UrlData) (code : String) {s s₁ : S}
        (r : Result ServiceError UrlData × S)
        → SameView model s s₁
        → Reserved entropy Picked Why (with_code u code) s₁ r
        → Reserved entropy Picked Why u s r
    Reserved-after Why u code (ok u', s') same (e, f) = (e, Filed-after same f)
    Reserved-after Why u code {s} {s₁} (err e, s') same (inl (why, f)) =
        inl (why, SameView-trans s s₁ s' same f)
    Reserved-after Why u code (err e, s') same (inr (failed, lost)) =
        inr (failed, Lost-after u code same lost)

  -- The code of attempt `i`.
  abbrev pub drawn_code : Entropy E → ℕ → String
  drawn_code entropy i = generate_short_code (code_length_at i) (entropy.code_draws i)

  named_draw :
      (entropy : Entropy E) (i : ℕ)
      → InRange (entropy.code_draws i)
      → str_eq (generate_short_code (code_length_at i) (entropy.code_draws i)) "" ≡ false
  named_draw entropy i draws =
      not_empty _ (generate_short_code-ne-empty (code_length_at i) (entropy.code_draws i) draws)

  pub reserve_random-Reserved :
      (entropy : Entropy E) (Picked : ℕ → String → Type 0) (attempts : ℕ)
      → ((i : ℕ) → InRange (entropy.code_draws i))
      → ((i : ℕ) → i < attempts → Picked i (drawn_code entropy i))
      → (rounds i : ℕ) → i + rounds ≤ attempts
      → (u : UrlData) (s : S)
      → Reserved entropy Picked
          (λ e. e ≡ not_allocated)
          u
          s
          (reserve_random store entropy rounds i u s)
  unfolding reserve_random
  reserve_random-Reserved entropy Picked attempts draws picks zero i fits u s =
      inl (refl, λ t j. refl)
  reserve_random-Reserved entropy Picked attempts draws picks (suc rounds) i fits u s =
      let e = entropy.clock i in
      let code = generate_short_code (code_length_at i) (entropy.code_draws i) in
      let u' = with_code u code in
      let s' = (store.set_if_absent e code u' s).1 in
      let named = named_draw entropy i (draws i) in
      let picked = picks i (omega (arith, fits)) in
      elim (laws.set-Outcome e u' s) [
        | inl (answer, filed) ↦
            rw (answer, named, reserve_random)
              (refl, record { attempt = i; has_code = named; picked = picked; is_filed = filed })
        | inr (inl (answer, taken, same)) ↦
            rw (answer, reserve_random)
              (Reserved-after entropy Picked (λ e. e ≡ not_allocated) u code _ same
                (reserve_random-Reserved entropy Picked attempts draws picks rounds (suc i)
                  (omega (arith, fits)) u' s'))
        | inr (inr (answer, failed)) ↦
            rw (answer, reserve_random)
              (inr (refl, Lost-at entropy Picked i u code s s' picked failed))
      ]

  -- Some attempt from `i` on finds its code free.
  pub record SomeFree (entropy : Entropy E) (rounds i : ℕ) (s : S) : Type 0 where
    pub attempt : ℕ
    pub from : i ≤ attempt
    pub within : attempt < i + rounds
    pub free :
        view
          (time (entropy.clock attempt))
          s
          (generate_short_code (code_length_at attempt) (entropy.code_draws attempt))
        ≡ none

  -- If the first attempt is taken, it is a later one.
  later_attempt :
      (i : ℕ) {entropy : Entropy E} {rounds : ℕ} {s : S} (f : SomeFree entropy (suc rounds) i s)
      → is_some (
          view
            (time (entropy.clock i))
            s
            (generate_short_code (code_length_at i) (entropy.code_draws i)))
        ≡ true
      → suc i ≤ f.attempt
  later_attempt i {entropy} {s} f taken = elim (ℕ_discrete i f.attempt) [
    | yes same ↦ absurd (clash (rw same at taken))
    | no other ↦ omega (arith, f.from)
  ]
    where
      clash :
          is_some (
              view
                (time (entropy.clock f.attempt))
                s
                (generate_short_code (code_length_at f.attempt) (entropy.code_draws f.attempt)))
            ≡ true
          → ⊥
      clash h = ground (arith, f.free)

  -- The loop does not give up where one of its attempts would have found its code free.
  pub reserve_random-allocated :
      (entropy : Entropy E)
      → ((i : ℕ) → InRange (entropy.code_draws i))
      → (rounds i : ℕ) (u : UrlData) (s : S) → SomeFree entropy rounds i s
      → (reserve_random store entropy rounds i u s).0 ≡ err not_allocated
      → ⊥
  unfolding reserve_random
  reserve_random-allocated entropy draws zero i u s f h = absurd (omega (arith, f.from, f.within))
  reserve_random-allocated entropy draws (suc rounds) i u s f h =
      let e = entropy.clock i in
      let code = generate_short_code (code_length_at i) (entropy.code_draws i) in
      let u' = with_code u code in
      let s' = (store.set_if_absent e code u' s).1 in
      let named = named_draw entropy i (draws i) in
      elim (laws.set-Outcome e u' s) [
        | inl (answer, filed) ↦ ground (arith, answer, named)
        | inr (inl (answer, taken, same)) ↦
            reserve_random-allocated entropy draws rounds (suc i) u' s'
              (record {
                attempt = f.attempt;
                from = later_attempt i f taken;
                within = omega (arith, f.within);
                free = same (time (entropy.clock f.attempt)) _ ∙ f.free;
              })
              (ground (arith, answer))
        | inr (inr (answer, failed)) ↦ ground (arith, answer)
      ]

-- ===== src/UserStore/Later.antt =====
-- The states of a user store after further calls, whoever makes them and whatever becomes of them, and the
-- token version of a user in them.
use goshorty.Prelude.{
  ℕ, zero, suc, ◌+◌, ◌≤◌, ◌<◌, ◌^◌, String, ◌≡◌, refl, sym, ap, subst, ◌∙◌, false, ◌==◌, none, some,
  Result, arith, str_eq, str_eq_iff, Bool-cases, Option-cases, inl, inr,
}
use goshorty.Random.{generate_id}
use goshorty.Models.{User}
use goshorty.Users.{Bcrypt, UserError}
use goshorty.UserStore.{UserStore, UserDraws}
use goshorty.UserStore.Contract.{
  UserModel, UserStoreLaws, UserCall, IsBumped, BumpOutcome, KeepsVersion, advanced, bumped_user,
  bumped, unknown, full, lost, failed,
}

module _ {S : Type 0} (bcrypt : Bcrypt) (model : UserModel S) where
  -- From `us` there have been calls of a store with the contract, `n` of them of `UpdatePassword` and
  -- `RevokeTokens`, for any users. A new user has got an ID that nobody has and that is not `id`.
  pub data Later (id : String) (us : S) : ℕ → S → Type 1 where
    here : Later id us 0 us
    changes :
        {n : ℕ} {us' : S} {Fails : UserCall → Type 0} {store : UserStore S}
        → UserStoreLaws model bcrypt Fails store
        → (salt : ℕ) (j password : String) → Later id us n us'
        → Later id us (suc n) (store.update_password salt j password us').1
    revokes :
        {n : ℕ} {us' : S} {Fails : UserCall → Type 0} {store : UserStore S}
        → UserStoreLaws model bcrypt Fails store
        → (j : String) → Later id us n us'
        → Later id us (suc n) (store.revoke_tokens j us').1
    creates :
        {n : ℕ} {us' : S} {Fails : UserCall → Type 0} {store : UserStore S}
        → UserStoreLaws model bcrypt Fails store
        → (d : UserDraws) (username password email : String)
        → model.of_id (generate_id d.id_draws) us' ≡ none
        → str_eq (generate_id d.id_draws) id ≡ false
        → Later id us n us'
        → Later id us n (store.create_user d username password email us').1
    promotes :
        {n : ℕ} {us' : S} {Fails : UserCall → Type 0} {store : UserStore S}
        → UserStoreLaws model bcrypt Fails store
        → (username role : String) → Later id us n us'
        → Later id us n (store.update_user_role username role us').1
    deletes :
        {n : ℕ} {us' : S} {Fails : UserCall → Type 0} {store : UserStore S}
        → UserStoreLaws model bcrypt Fails store
        → (username : String) → Later id us n us'
        → Later id us n (store.delete_user username us').1

  -- Whom the ID stands for has been there, with a version of at most `n` changes less.
  pub record Aged (id : String) (us : S) (n : ℕ) (us' : S) (u' : User) : Type 0 where
    pub before : User
    pub known : model.of_id id us ≡ some before
    pub changes_made : ℕ
    pub at_most : changes_made ≤ n
    pub version : u'.token_version ≡ advanced model changes_made before.token_version

  pub record IsLater (id : String) (us : S) (n : ℕ) (us' : S) : Type 0 where
    pub sound : model.IsSound us'
    pub aged : (u' : User) → model.of_id id us' ≡ some u' → Aged id us n us' u'

  kept-IsLater :
      (id : String) (us : S) (n : ℕ) (us₁ us' : S)
      → model.IsSound us'
      → KeepsVersion model id us₁ us'
      → IsLater id us n us₁
      → IsLater id us n us'
  kept-IsLater id us n us₁ us' sound keeps l = record {
    sound = sound;
    aged = λ u' h.
        let (u, there, same) = keeps u' h in
        let a = l.aged u there in
        record {
          before = a.before;
          known = a.known;
          changes_made = a.changes_made;
          at_most = a.at_most;
          version = same ∙ a.version;
        };
  }

  -- One change more may have been made.
  more-IsLater :
      (id : String) (us : S) (n : ℕ) (us' : S) → IsLater id us n us' → IsLater id us (suc n) us'
  more-IsLater id us n us' l = record {
    sound = l.sound;
    aged = λ u' h.
        let a = l.aged u' h in
        record {
          before = a.before;
          known = a.known;
          changes_made = a.changes_made;
          at_most = omega (arith, a.at_most);
          version = a.version;
        };
  }

  bumped-IsLater :
      (id j : String) (hash : User → String) (us : S) (n : ℕ) (us₁ us' : S)
      → IsBumped model j hash us₁ us'
      → IsLater id us n us₁
      → IsLater id us (suc n) us'
  unfolding advanced
  bumped-IsLater id j hash us n us₁ us' b l = elim (Bool-cases (str_eq j id)) [
    | inr other ↦
        let same = b.other_ids id other in
        let keeps : KeepsVersion model id us₁ us' = λ u h. (u, sym same ∙ h, refl) in
        more-IsLater id us n us' (kept-IsLater id us n us₁ us' b.sound keeps l)
    | inl hit ↦
        let same = (str_eq_iff j id).0 hit in
        let known : model.of_id id us₁ ≡ some b.before =
          subst (λ i. model.of_id i us₁ ≡ some b.before) same b.known in
        let known_after : model.of_id id us' ≡ some (bumped_user model hash b.before) =
          subst (λ i. model.of_id i us' ≡ some (bumped_user model hash b.before)) same
            b.known_after in
        record {
          sound = b.sound;
          aged = λ u' h.
              let a = l.aged b.before known in
              let is_bumped : u' ≡ bumped_user model hash b.before =
                ground (arith, h, known_after) in
              record {
                before = a.before;
                known = a.known;
                changes_made = suc a.changes_made;
                at_most = omega (arith, a.at_most);
                version =
                    ap (λ (u : User). u.token_version) is_bumped ∙ ap (λ v. model.next v) a.version;
              };
        }
  ]

  outcome-IsLater :
      {Fails : Type 0} {answer : Result UserError (Unit {0})} (id j : String) (hash : User → String)
      (us : S) (n : ℕ) (us₁ us' : S)
      → BumpOutcome model Fails j hash us₁ answer us'
      → IsLater id us n us₁
      → IsLater id us (suc n) us'
  outcome-IsLater id j hash us n us₁ us' (bumped h b) l = bumped-IsLater id j hash us n us₁ us' b l
  outcome-IsLater id j hash us n us₁ us' (lost fails h b) l =
      bumped-IsLater id j hash us n us₁ us' b l
  outcome-IsLater id j hash us n us₁ us' (unknown missing h same) l =
      subst (IsLater id us (suc n)) (sym same) (more-IsLater id us n us₁ l)
  outcome-IsLater id j hash us n us₁ us' (full u there no_room h same) l =
      subst (IsLater id us (suc n)) (sym same) (more-IsLater id us n us₁ l)
  outcome-IsLater id j hash us n us₁ us' (failed fails h same) l =
      subst (IsLater id us (suc n)) (sym same) (more-IsLater id us n us₁ l)

  -- What the calls leave of a user and their token version.
  pub Later-IsLater :
      {id : String} {us : S} {n : ℕ} {us' : S}
      → model.IsSound us
      → Later id us n us'
      → IsLater id us n us'
  unfolding advanced
  Later-IsLater {id} {us} sound here = record {
    sound = sound;
    aged = λ u h. record {
      before = u;
      known = h;
      changes_made = 0;
      at_most = omega arith;
      version = refl;
    };
  }
  Later-IsLater {id} {us} sound (changes {n} {us'} {store = store} laws salt j password l) =
      let rest = Later-IsLater sound l in
      elim (Option-cases (bcrypt.generate salt password)) [
        | inl no_hash ↦
            let same = laws.hash_failed_lem salt j password us' no_hash in
            subst (IsLater id us (suc n)) (sym (ap (λ r. r.1) same)) (more-IsLater id us n us' rest)
        | inr (hash, hashed) ↦
            outcome-IsLater id j (λ u. hash) us n us' (store.update_password salt j password us').1
              (laws.update_password_lem salt j password hash us' rest.sound hashed) rest
      ]
  Later-IsLater {id} {us} sound (revokes {n} {us'} {store = store} laws j l) =
      let rest = Later-IsLater sound l in
      outcome-IsLater id j (λ u. u.password) us n us' (store.revoke_tokens j us').1
        (laws.revoke_tokens_lem j us' rest.sound) rest
  Later-IsLater {id} {us} sound (creates {n} {us'} laws d username password email new other l) =
      let rest = Later-IsLater sound l in
      let (kept, keeps) = laws.create_user_lem d username password email us' rest.sound new in
      kept-IsLater id us n us' _ kept (keeps id other) rest
  Later-IsLater {id} {us} sound (promotes {n} {us'} laws username role l) =
      let rest = Later-IsLater sound l in
      let (kept, keeps) = laws.update_user_role_lem username role us' rest.sound in
      kept-IsLater id us n us' _ kept (keeps id) rest
  Later-IsLater {id} {us} sound (deletes {n} {us'} laws username l) =
      let rest = Later-IsLater sound l in
      let (kept, keeps) = laws.delete_user_lem username us' rest.sound in
      kept-IsLater id us n us' _ kept (keeps id) rest

  advanced_add : (m n v : ℕ) → advanced model m (advanced model n v) ≡ advanced model (m + n) v
  unfolding advanced
  advanced_add zero n v = ap (λ k. advanced model k v) (omega arith)
  advanced_add (suc m) n v =
      ap (λ w. model.next w) (advanced_add m n v) ∙ ap (λ k. advanced model k v) (step m n)
    where
      step : (m n : ℕ) → suc (m + n) ≡ suc m + n
      step m n = omega arith

  -- A user whose version has been raised since, with fewer than 2 ^ 64 changes in all, has another one
  -- than at the start.
  pub Later-other :
      {Fails : UserCall → Type 0} {store : UserStore S} {id : String} {us us₁ us₂ us' : S} {m n : ℕ}
      (hash : User → String)
      → UserStoreLaws model bcrypt Fails store
      → model.IsSound us
      → Later id us m us₁
      → IsBumped model id hash us₁ us₂
      → Later id us₂ n us'
      → suc (m + n) < 2 ^ 64
      → (u u' : User) → model.of_id id us ≡ some u
      → model.of_id id us' ≡ some u'
      → (u.token_version == u'.token_version) ≡ false
  unfolding advanced
  Later-other {id} {us} {us₁} {us₂} {us'} {m} {n} hash laws sound earlier b later small u u' there
        there' =
      let first = (Later-IsLater sound earlier).aged b.before b.known in
      let last = (Later-IsLater b.sound later).aged u' there' in
      let was_bumped : last.before ≡ bumped_user model hash b.before =
        ground (arith, last.known, b.known_after) in
      let was_u : first.before ≡ u = ground (arith, first.known, there) in
      let p = last.changes_made in
      let q = first.changes_made in
      let v = u.token_version in
      let raised : last.before.token_version ≡ advanced model (suc q) v =
        ap (λ (w : User). w.token_version) was_bumped
        ∙ ap (λ v. model.next v) first.version
        ∙ ap (λ (w : User). advanced model (suc q) w.token_version) was_u in
      let total : u'.token_version ≡ advanced model (suc (p + q)) v =
        last.version
        ∙ ap (λ w. advanced model p w) raised
        ∙ advanced_add p (suc q) v
        ∙ ap (λ k. advanced model k v) (plus p q) in
      rw total (laws.advanced_lem (p + q) v (omega (arith, small, last.at_most, first.at_most)))
    where
      plus : (p q : ℕ) → p + suc q ≡ suc (p + q)
      plus p q = omega arith

-- ===== src/Paging/Walk.antt =====
-- A client that follows `next_cursor` from page to page.
use goshorty.Prelude.{
  ℕ, zero, suc, ◌*◌, ◌≤◌, ◌<◌, ◌≡◌, refl, ap, sym, ◌∙◌, List, [], ◌∷◌, ◌++◌, Option, none, some,
  arith, ltb, length, take, drop, take_all, take-append-drop, length-drop, get_last?, if◌then◌else◌,
  Bool-cases, inl, inr,
}
use mathlib.Core.List.{append-nil, append_assoc}

module _ {A C : Type 0} where
  -- What a page answers to the client: its items, and the next cursor unless it is the last page.
  unfoldable pub walk : (C → List A × Option C) → ℕ → C → List A
  walk fetch zero cursor = []
  walk fetch (suc fuel) cursor =
      let (items, next) = fetch cursor in
      items ++ (elim next [ none ↦ [] | some cursor' ↦ walk fetch fuel cursor' ])

  -- The next cursor of a page that begins `ys`: that of the page's last element.
  abbrev pub next_of : (A → C) → ℕ → List A → Option C
  next_of token limit ys =
      if ltb limit (length ys)
      then (elim (get_last? (take limit ys)) [ none ↦ none | some u ↦ some (token u) ])
      else none

-- Where a page ends inside a list: the elements before its last one, the last, and the rest.
pub record Cut {A : Type 0} (limit : ℕ) (ys : List A) : Type 0 where
  pub before : List A
  pub last : A
  pub whole : ys ≡ before ++ last ∷ drop limit ys
  pub is_last : get_last? (take limit ys) ≡ some last

module _ {A : Type 0} where
  get_last?-cons :
      (x : A) (xs : List A) {l : A} → get_last? xs ≡ some l → get_last? (x ∷ xs) ≡ some l
  get_last?-cons x [] h = cc
  get_last?-cons x (y ∷ ys) h = h

  pub cut : (limit : ℕ) (ys : List A) → 0 < limit → limit ≤ length ys → Cut limit ys
  cut zero ys pos le = absurd (omega arith)
  cut (suc n) [] pos le = absurd (omega arith)
  cut (suc zero) (y ∷ ys) pos le = record { before = []; last = y; whole = refl; is_last = refl }
  cut (suc (suc n)) (y ∷ ys) pos le =
      let rest = cut (suc n) ys (omega arith) (omega arith) in
      record {
        before = y ∷ rest.before;
        last = rest.last;
        whole = ap (◌∷◌ y) rest.whole;
        is_last = get_last?-cons y (take (suc n) ys) rest.is_last;
      }

-- A listing `all`, cursors that stand for positions in it, and pages that answer them.
module _ {A C : Type 0} (all : List A) (token : A → C) (limit : ℕ) (fetch : C → List A × Option C)
    (At : C → List A → Type 0)
    (page : (c : C) (ys : List A) → At c ys → fetch c ≡ (take limit ys, next_of token limit ys))
    (resume : (before : List A) (last : A) (ys : List A)
      → all ≡ before ++ last ∷ ys
      → At (token last) ys)
    (positive : 0 < limit) where
  walk_rest :
      (fuel : ℕ) (c : C) (before ys : List A)
      → all ≡ before ++ ys
      → At c ys
      → length ys ≤ fuel * limit
      → walk fetch fuel c ≡ ys
  unfolding walk
  walk_rest zero c before [] e a fits = refl
  walk_rest zero c before (y ∷ ys) e a fits = absurd (omega arith)
  walk_rest (suc fuel) c before ys e a fits = elim (Bool-cases (ltb limit (length ys))) [
    | inr fit ↦
        rw (page c ys a, fit) (append-nil (take limit ys) ∙ take_all limit ys (ground arith))
    | inl more ↦
        let here = cut limit ys positive (ground arith) in
        let later = drop limit ys in
        let split : all ≡ (before ++ here.before) ++ here.last ∷ later =
          e ∙ ap (◌++◌ before) here.whole ∙ sym (append_assoc before here.before _) in
        let rest : walk fetch fuel (token here.last) ≡ later =
          walk_rest fuel (token here.last) (before ++ here.before ++ here.last ∷ []) later
            (split ∙ sym (append_assoc (before ++ here.before) (here.last ∷ []) later))
            (resume (before ++ here.before) here.last later split)
            (omega (arith, length-drop limit ys, fits)) in
        rw (page c ys a, more, here.is_last, rest) (take-append-drop limit ys)
  ]

  -- From the cursor of the first page, with as many requests as the listing has pages, the client has
  -- the whole listing: each element once and in order.
  pub walk_all : (fuel : ℕ) (c : C) → At c all → length all ≤ fuel * limit → walk fetch fuel c ≡ all
  walk_all fuel c a fits = walk_rest fuel c [] all refl a fits

-- ===== src/ChannelList/Moves.antt =====
-- The move of a dragged channel in frontend/src/components/servers/ServerChannelList.tsx.
use mathlib.Core.List.Perm
use mathlib.Core.List.{Perm}
use bu3li_comms.Prelude.{
  ℕ, zero, suc, ◌+◌, ◌≤◌, ◌<◌, eqb, String, ◌==◌, ◌≡◌, refl, subst, some, List, [], ◌∷◌, length,
  All, find_index, arith, Option-cases, Bool-cases, inl, inr,
}
use bu3li_comms.Server.{ServerChannel}
use bu3li_comms.ChannelList.{get_elem?, remove_at, insert_at, move, move_channel}

module _ {ℓ} {A : Type ℓ} where
  insert_at-perm : (i : ℕ) (x : A) (xs : List A) → Perm (insert_at i x xs) (x ∷ xs)
  unfolding insert_at
  insert_at-perm i x [] = Perm.refl (x ∷ [])
  insert_at-perm zero x (y ∷ ys) = Perm.refl (x ∷ y ∷ ys)
  insert_at-perm (suc i) x (y ∷ ys) =
      Perm.trans (Perm.cons y (insert_at-perm i x ys)) (Perm.swap x y ys)

  remove_at-perm :
      (i : ℕ) (x : A) (xs : List A) → get_elem? xs i ≡ some x → Perm xs (x ∷ remove_at i xs)
  unfolding remove_at
  remove_at-perm i x [] e = absurd (ground arith)
  remove_at-perm zero x (y ∷ ys) e =
      let same : y ≡ x = cc in subst (λ z. Perm (y ∷ ys) (z ∷ ys)) same (Perm.refl (y ∷ ys))
  remove_at-perm (suc i) x (y ∷ ys) e =
      Perm.trans (Perm.cons y (remove_at-perm i x ys e)) (Perm.swap x y (remove_at i ys))

  pub move-perm : (from to : ℕ) (xs : List A) → Perm (move from to xs) xs
  unfolding move
  move-perm from to xs = elim (Option-cases (get_elem? xs from)) [
    | inl e ↦ rw (e, move) (Perm.refl xs)
    | inr (x, e) ↦
        rw (e, move)
          (Perm.trans (insert_at-perm to x (remove_at from xs))
            (Perm.symm (remove_at-perm from x xs e)))
  ]

  All-insert_at {κ} :
      (P : A → Type κ) (i : ℕ) (x : A) (xs : List A) → P x → All P xs → All P (insert_at i x xs)
  unfolding insert_at
  All-insert_at P i x [] p h = (p, tt)
  All-insert_at P zero x (y ∷ ys) p (q, h) = (p, (q, h))
  All-insert_at P (suc i) x (y ∷ ys) p (q, h) = (q, All-insert_at P i x ys p h)

  All-remove_at {κ} : (P : A → Type κ) (i : ℕ) (xs : List A) → All P xs → All P (remove_at i xs)
  unfolding remove_at
  All-remove_at P i [] h = tt
  All-remove_at P zero (y ∷ ys) (q, h) = h
  All-remove_at P (suc i) (y ∷ ys) (q, h) = (q, All-remove_at P i ys h)

  All-get {κ} :
      (P : A → Type κ) (i : ℕ) (x : A) (xs : List A) → All P xs → get_elem? xs i ≡ some x → P x
  All-get P i x [] h e = absurd (ground arith)
  All-get P zero x (y ∷ ys) (q, h) e = let same : y ≡ x = cc in subst P same q
  All-get P (suc i) x (y ∷ ys) (q, h) e = All-get P i x ys h e

  All-move {κ} : (P : A → Type κ) (from to : ℕ) (xs : List A) → All P xs → All P (move from to xs)
  unfolding move
  All-move P from to xs h = elim (Option-cases (get_elem? xs from)) [
    | inl e ↦ rw (e, move) h
    | inr (x, e) ↦
        rw (e, move)
          (All-insert_at P to x (remove_at from xs) (All-get P from x xs h e)
            (All-remove_at P from xs h))
  ]

  insert_at-get :
      (i : ℕ) (x : A) (xs : List A) → i ≤ length xs → get_elem? (insert_at i x xs) i ≡ some x
  unfolding insert_at
  insert_at-get zero x [] h = refl
  insert_at-get (suc i) x [] h = absurd (omega arith)
  insert_at-get zero x (y ∷ ys) h = refl
  insert_at-get (suc i) x (y ∷ ys) h = insert_at-get i x ys (omega arith)

  length-remove_at : (i : ℕ) (xs : List A) → length xs ≤ length (remove_at i xs) + 1
  unfolding remove_at
  length-remove_at i [] = omega arith
  length-remove_at zero (y ∷ ys) = omega arith
  length-remove_at (suc i) (y ∷ ys) = omega (arith, length-remove_at i ys)

  -- Within the list, the element that is moved lands where it is moved to.
  pub move-get :
      (from to : ℕ) (x : A) (xs : List A)
      → get_elem? xs from ≡ some x
      → to < length xs
      → get_elem? (move from to xs) to ≡ some x
  unfolding move
  move-get from to x xs e h =
      rw (e, move)
        (insert_at-get to x (remove_at from xs) (omega (arith, length-remove_at from xs)))

pub move_channel-perm :
    (dragged target : String) (xs : List ServerChannel) → Perm (move_channel dragged target xs) xs
unfolding move_channel
move_channel-perm dragged target xs = elim (Option-cases (find_index (λ c. c.id == dragged) xs)) [
  | inl e ↦ rw (e, move_channel) (Perm.refl xs)
  | inr (from, e) ↦ elim (Option-cases (find_index (λ c. c.id == target) xs)) [
    | inl k ↦ rw (e, k, move_channel) (Perm.refl xs)
    | inr (to, k) ↦ elim (Bool-cases (eqb from to)) [
      | inl b ↦ rw (e, k, b, move_channel) (Perm.refl xs)
      | inr b ↦ rw (e, k, b, move_channel) (move-perm from to xs)
    ]
  ]
]

pub All-move_channel {κ} :
    (P : ServerChannel → Type κ) (dragged target : String) (xs : List ServerChannel)
    → All P xs
    → All P (move_channel dragged target xs)
unfolding move_channel
All-move_channel P dragged target xs h =
    elim (Option-cases (find_index (λ c. c.id == dragged) xs)) [
      | inl e ↦ rw (e, move_channel) h
      | inr (from, e) ↦ elim (Option-cases (find_index (λ c. c.id == target) xs)) [
        | inl k ↦ rw (e, k, move_channel) h
        | inr (to, k) ↦ elim (Bool-cases (eqb from to)) [
          | inl b ↦ rw (e, k, b, move_channel) h
          | inr b ↦ rw (e, k, b, move_channel) (All-move P from to xs h)
        ]
      ]
    ]

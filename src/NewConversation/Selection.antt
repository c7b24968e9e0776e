-- ===== src/NewConversation/Selection.antt =====
-- The users that frontend/src/components/conversations/NewConversationDialog.tsx holds selected.
use bu3li_comms.Prelude.{
  ◌≤◌, String, Bool, true, false, not, ◌==◌, ◌&&◌, ◌||◌, includes, if◌then◌else◌, ◌≡◌, refl, subst,
  sym, ◌∙◌, some, List, [], ◌∷◌, ◌++◌, map, filter, length, length-filter-le, any-append, arith,
  List-cases, inl, inr,
}
use bu3li_comms.Conversations.{ConversationType, direct, group}
use bu3li_comms.Http.Endpoints.{User}
use bu3li_comms.NewConversation.{
  Dialog, opened, select, is_selected, toggle, keep_for, change_type, submit,
}

-- No two of the users have one id.
abbrev pub AreDistinct : List User → Type 0
AreDistinct [] = Unit
AreDistinct (u ∷ us) = (is_selected u.id us ≡ false) × AreDistinct us

-- At most one user is selected for a direct message.
abbrev pub Fits : ConversationType → List User → Type 0
Fits direct us = length us ≤ 1
Fits group us = Unit

abbrev is_group : ConversationType → Bool
is_group direct = false
is_group group = true

abbrev pub AreDistinctTexts : List String → Type 0
AreDistinctTexts [] = Unit
AreDistinctTexts (x ∷ xs) = (includes x xs ≡ false) × AreDistinctTexts xs

pub record IsValid (d : Dialog) : Type 0 where
  pub distinct : AreDistinct d.selected
  pub fits : Fits d.conversation_type d.selected

pub data DialogEvent : Type 0 where
  toggled : User → DialogEvent
  type_changed : ConversationType → DialogEvent

abbrev pub handle : DialogEvent → Dialog → Dialog
handle (toggled user) d = toggle user d
handle (type_changed next) d = change_type next d

abbrev pub handle_all : List DialogEvent → Dialog → Dialog
handle_all [] d = d
handle_all (e ∷ es) d = handle_all es (handle e d)

is_selected-filter :
    (k i : String) (us : List User)
    → is_selected k us ≡ false
    → is_selected k (filter (λ u. not (u.id == i)) us) ≡ false
is_selected-filter k i [] h = refl
is_selected-filter k i (u ∷ us) h = ground (arith, is_selected-filter k i us)

AreDistinct-filter :
    (i : String) (us : List User) → AreDistinct us → AreDistinct (filter (λ u. not (u.id == i)) us)
AreDistinct-filter i [] h = tt
AreDistinct-filter i (u ∷ us) (p, h) =
    ground (arith, AreDistinct-filter i us h, is_selected-filter u.id i us p)

AreDistinct-append :
    (us : List User) (u : User)
    → AreDistinct us
    → is_selected u.id us ≡ false
    → AreDistinct (us ++ u ∷ [])
AreDistinct-append [] u h n = (refl, tt)
AreDistinct-append (x ∷ us) u (p, h) n = (
  ground (arith, any-append (λ y. y.id == x.id) us (u ∷ [])),
  AreDistinct-append us u h (ground arith),
)

AreDistinct-toggled :
    (t : ConversationType) (u : User) (us : List User)
    → AreDistinct us
    → AreDistinct
        (if is_selected u.id us then filter (λ x. not (x.id == u.id)) us else select t u us)
AreDistinct-toggled direct u us h = ground (arith, AreDistinct-filter u.id us h)
AreDistinct-toggled group u us h =
    ground (arith, AreDistinct-filter u.id us h, AreDistinct-append us u h)

Fits-toggled :
    (t : ConversationType) (u : User) (us : List User)
    → Fits t us
    → Fits t (if is_selected u.id us then filter (λ x. not (x.id == u.id)) us else select t u us)
Fits-toggled direct u us h = ground (arith, length-filter-le (λ x. not (x.id == u.id)) us)
Fits-toggled group u us h = tt

AreDistinct-kept :
    (t : ConversationType) (us : List User) → AreDistinct us → AreDistinct (keep_for t us)
AreDistinct-kept direct [] h = tt
AreDistinct-kept direct (u ∷ us) h = (refl, tt)
AreDistinct-kept group us h = h

Fits-kept : (t : ConversationType) (us : List User) → Fits t (keep_for t us)
Fits-kept direct [] = omega arith
Fits-kept direct (u ∷ us) = omega arith
Fits-kept group us = tt

handle-IsValid : (e : DialogEvent) (d : Dialog) → IsValid d → IsValid (handle e d)
unfolding toggle change_type
handle-IsValid (toggled u) d v = record {
  distinct = AreDistinct-toggled d.conversation_type u d.selected v.distinct;
  fits = Fits-toggled d.conversation_type u d.selected v.fits;
}
handle-IsValid (type_changed t) d v = record {
  distinct = AreDistinct-kept t d.selected v.distinct;
  fits = Fits-kept t d.selected;
}

handle_all-IsValid : (es : List DialogEvent) (d : Dialog) → IsValid d → IsValid (handle_all es d)
handle_all-IsValid [] d v = v
handle_all-IsValid (e ∷ es) d v = handle_all-IsValid es (handle e d) (handle-IsValid e d v)

opened-IsValid : IsValid opened
opened-IsValid = record { distinct = tt; fits = omega arith }

is_selected-without :
    (k i : String) (us : List User)
    → is_selected k (filter (λ u. not (u.id == i)) us)
      ≡ (if k == i then false else is_selected k us)
is_selected-without k i [] = ground arith
is_selected-without k i (u ∷ us) = ground (arith, is_selected-without k i us)

is_selected-toggled :
    (k : String) (u : User) (t : ConversationType) (us : List User)
    → is_selected k
        (if is_selected u.id us then filter (λ x. not (x.id == u.id)) us else select t u us)
      ≡ (if k == u.id
          then not (is_selected k us)
          else is_selected k us && (is_group t || is_selected u.id us))
is_selected-toggled k u direct us = ground (arith, is_selected-without k u.id us)
is_selected-toggled k u group us =
    ground (arith, is_selected-without k u.id us, any-append (λ x. x.id == k) us (u ∷ []))

-- After a click on a user, exactly that user's selection has changed, but for a direct message a user who
-- is newly selected takes the place of the others.
pub is_selected-toggle :
    (k : String) (u : User) (d : Dialog)
    → is_selected k (toggle u d).selected ≡ (
        if k == u.id
        then not (is_selected k d.selected)
        else is_selected k d.selected
          && (is_group d.conversation_type || is_selected u.id d.selected))
unfolding toggle
is_selected-toggle k u d = is_selected-toggled k u d.conversation_type d.selected

-- What the mutation may be called with: one user for a direct message, some for a group, none of them twice.
pub record CanStart (t : ConversationType) (ids : List String) : Type 0 where
  pub distinct : AreDistinctTexts ids
  pub some_one : 1 ≤ length ids
  pub one_peer : t ≡ direct → length ids ≡ 1

includes-ids : (k : String) (us : List User) → includes k (map (λ u. u.id) us) ≡ is_selected k us
includes-ids k [] = refl
includes-ids k (u ∷ us) = ground (arith, includes-ids k us)

AreDistinct-ids : (us : List User) → AreDistinct us → AreDistinctTexts (map (λ u. u.id) us)
AreDistinct-ids [] h = tt
AreDistinct-ids (u ∷ us) (p, h) = (includes-ids u.id us ∙ p, AreDistinct-ids us h)

one_peer_of :
    (t : ConversationType) (u : User) (us : List User)
    → Fits t (u ∷ us)
    → t ≡ direct
    → length (map (λ x. x.id) (u ∷ us)) ≡ 1
one_peer_of direct u [] f e = refl
one_peer_of direct u (x ∷ us) f e = absurd (omega arith)
one_peer_of group u us f e = absurd (ground arith)

CanStart-selected :
    (t : ConversationType) (u : User) (us : List User)
    → AreDistinct (u ∷ us)
    → Fits t (u ∷ us)
    → CanStart t (map (λ x. x.id) (u ∷ us))
CanStart-selected t u us d f = record {
  distinct = AreDistinct-ids (u ∷ us) d;
  some_one = omega arith;
  one_peer = one_peer_of t u us f;
}

submit-cases :
    (d : Dialog) (t : ConversationType) (ids : List String)
    → submit d ≡ some (t, ids)
    → (u : User) × (us : List User) × (d.selected ≡ u ∷ us)
      × (d.conversation_type ≡ t)
      × (ids ≡ map (λ x. x.id) (u ∷ us))
unfolding submit
submit-cases d t ids h = elim (List-cases d.selected) [
  | inl e ↦ absurd (ground arith)
  | inr (u, us, e) ↦ (u, us, e, ground arith, ground arith)
]

CanStart-submit :
    (d : Dialog) (t : ConversationType) (ids : List String)
    → IsValid d
    → submit d ≡ some (t, ids)
    → CanStart t ids
CanStart-submit d t ids v h =
    let (u, us, e, same, g) = submit-cases d t ids h in
    let distinct : AreDistinct (u ∷ us) = subst AreDistinct e v.distinct in
    let fits : Fits t (u ∷ us) =
      subst (λ xs. Fits t xs) e (subst (λ x. Fits x d.selected) same v.fits) in
    subst (CanStart t) (sym g) (CanStart-selected t u us distinct fits)

-- Whatever the user does in the dialog, if submitting then calls the mutation, it is with one user for a
-- direct message and at least one for a group, none of them twice.
pub submit-handle_all :
    (es : List DialogEvent) (t : ConversationType) (ids : List String)
    → submit (handle_all es opened) ≡ some (t, ids)
    → CanStart t ids
unfolding submit
submit-handle_all es t ids h =
    CanStart-submit (handle_all es opened) t ids (handle_all-IsValid es opened opened-IsValid) h

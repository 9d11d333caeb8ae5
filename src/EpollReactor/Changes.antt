-- ===== src/EpollReactor/Changes.antt =====
-- The list of pending changes, as a map from controllers to masks
-- (galay-kernel/kernel/epoll_reactor.cc).
use galay_kernel.Prelude.{
  ℕ, ◌≤◌, ◌≡◌, ◌≢◌, refl, inl, inr, none, some, List, [], ◌∷◌, ◌++◌, ◌==◌, count, count-append,
  arith, Bool-cases,
}
use galay_kernel.EpollReactor.{
  Events, PendingChange, find_pending_change, discard_pending_change, replace_pending_change,
}
use galay_kernel.EpollReactor.Registered.{keys, find-keys}

pub find-discard_other :
    (i j : ℕ) (changes : List PendingChange)
    → j ≢ i
    → find_pending_change j (discard_pending_change i changes) ≡ find_pending_change j changes
find-discard_other i j [] apart = refl
find-discard_other i j (c ∷ changes) apart =
    let later = find-discard_other i j changes apart in
    elim (Bool-cases (c.controller == i)) [ inl e ↦ ground arith | inr e ↦ ground arith ]

pub find-discard_this :
    (i : ℕ) (changes : List PendingChange)
    → count i (keys changes) ≤ 1
    → find_pending_change i (discard_pending_change i changes) ≡ none
find-discard_this i [] once = refl
find-discard_this i (c ∷ changes) once = elim (Bool-cases (c.controller == i)) [
  | inl e ↦
      let none_left : count i (keys changes) ≡ 0 = ground arith in
      ground (arith, find-keys i changes none_left)
  | inr e ↦ ground (arith, find-discard_this i changes)
]

pub count-discard :
    (i j : ℕ) (changes : List PendingChange)
    → count j (keys (discard_pending_change i changes)) ≤ count j (keys changes)
count-discard i j [] = omega arith
count-discard i j (c ∷ changes) =
    let later = count-discard i j changes in
    elim (Bool-cases (c.controller == i)) [ inl e ↦ ground arith | inr e ↦ ground arith ]

pub find-replace_other :
    (i j : ℕ) (events : Events) (changes : List PendingChange)
    → j ≢ i
    → find_pending_change j (replace_pending_change i events changes)
      ≡ find_pending_change j changes
find-replace_other i j events [] apart = refl
find-replace_other i j events (c ∷ changes) apart =
    let later = find-replace_other i j events changes apart in
    elim (Bool-cases (c.controller == i)) [ inl e ↦ ground arith | inr e ↦ ground arith ]

pub find-replace_this :
    (i : ℕ) (events pending : Events) (changes : List PendingChange)
    → find_pending_change i changes ≡ some pending
    → find_pending_change i (replace_pending_change i events changes) ≡ some events
find-replace_this i events pending [] found = ground arith
find-replace_this i events pending (c ∷ changes) found = elim (Bool-cases (c.controller == i)) [
  | inl e ↦ ground arith
  | inr e ↦ ground (arith, find-replace_this i events pending changes)
]

pub keys-replace :
    (i : ℕ) (events : Events) (changes : List PendingChange)
    → keys (replace_pending_change i events changes) ≡ keys changes
keys-replace i events [] = refl
keys-replace i events (c ∷ changes) =
    let later = keys-replace i events changes in
    elim (Bool-cases (c.controller == i)) [ inl e ↦ ground arith | inr e ↦ ground arith ]

pub keys-append : (front back : List PendingChange) → keys (front ++ back) ≡ keys front ++ keys back
keys-append [] back = refl
keys-append (c ∷ front) back = rw (keys-append front back)

pub find-append_other :
    (i j : ℕ) (events : Events) (changes : List PendingChange)
    → j ≢ i
    → find_pending_change j (changes ++ record { controller = i; events = events } ∷ [])
      ≡ find_pending_change j changes
find-append_other i j events [] apart = ground arith
find-append_other i j events (c ∷ changes) apart =
    let later = find-append_other i j events changes apart in
    elim (Bool-cases (c.controller == j)) [ inl e ↦ ground arith | inr e ↦ ground arith ]

pub find-append_this :
    (i : ℕ) (events : Events) (changes : List PendingChange)
    → find_pending_change i changes ≡ none
    → find_pending_change i (changes ++ record { controller = i; events = events } ∷ [])
      ≡ some events
find-append_this i events [] missing = ground arith
find-append_this i events (c ∷ changes) missing = elim (Bool-cases (c.controller == i)) [
  | inl e ↦ ground arith
  | inr e ↦ ground (arith, find-append_this i events changes)
]

pub keys-find :
    (i : ℕ) (changes : List PendingChange)
    → find_pending_change i changes ≡ none
    → count i (keys changes) ≡ 0
keys-find i [] missing = refl
keys-find i (c ∷ changes) missing = elim (Bool-cases (c.controller == i)) [
  | inl e ↦ ground arith
  | inr e ↦ ground (arith, keys-find i changes)
]

pub count_added-once :
    (i j : ℕ) (events : Events) (changes : List PendingChange)
    → count j (keys changes) ≤ 1
    → find_pending_change i changes ≡ none
    → count j (keys (changes ++ record { controller = i; events = events } ∷ [])) ≤ 1
count_added-once i j events changes once missing =
    let added = keys-append changes (record { controller = i; events = events } ∷ []) in
    let total = count-append j (keys changes) (i ∷ []) in
    elim (Bool-cases (i == j)) [
      | inl e ↦ ground (arith, added, total, keys-find i changes missing)
      | inr e ↦ ground (arith, added, total)
    ]

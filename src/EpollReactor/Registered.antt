-- ===== src/EpollReactor/Registered.antt =====
-- The interest that the epoll instance has in a descriptor, m_registered_events and the pending
-- changes (galay-kernel/kernel/epoll_reactor.cc).
use galay_kernel.Prelude.{
  ℕ, zero, suc, ◌≡◌, ◌≢◌, refl, sym, ◌∙◌, inl, inr, true, false, Option, none, some, List, [], ◌∷◌,
  ◌==◌, if◌then◌else◌, if_elim, count, arith, Bool-cases,
}
use galay_kernel.EpollReactor.{
  Events, only_edges, PendingChange, Request, add, modify, delete, Answer, accepted, refused,
  Reactor, same_events, find_pending_change, call, enoent, eintr, again_on, add_or_modify,
}

-- What the epoll instance holds of a descriptor once a mask is applied.
abbrev pub settle : Events → Option Events
settle events = if same_events events only_edges then none else some events

-- What the reactor was last asked for.
abbrev pub wanted_of : Option Events → Option Events → Option Events
wanted_of none registered = registered
wanted_of (some events) registered = settle events

abbrev pub wanted : {K : Type 0} → Reactor K → ℕ → Option Events
wanted r i = wanted_of (find_pending_change i r.pending_changes) (r.controllers i).registered_events

abbrev pub keys : List PendingChange → List ℕ
keys [] = []
keys (c ∷ changes) = c.controller ∷ keys changes

pub same_events→eq : (a b : Events) → same_events a b ≡ true → a ≡ b
same_events→eq a b e = ground arith

pub find-keys :
    (i : ℕ) (changes : List PendingChange)
    → count i (keys changes) ≡ 0
    → find_pending_change i changes ≡ none
find-keys i [] h = refl
find-keys i (c ∷ changes) h = elim (Bool-cases (c.controller == i)) [
  | inl e ↦ ground arith
  | inr e ↦ ground (arith, find-keys i changes)
]

abbrev pub wish : Request → Option Events
wish (add events) = some events
wish (modify events) = some events
wish delete = none

module _ {K : Type 0} (interest : K → ℕ → Option Events) where
  -- What epoll_ctl(2) says of the interest list: a change that is accepted is made, a refused one
  -- is not, other descriptors keep theirs, and ENOENT is answered for a descriptor with none.
  pub data Follows (wished : Option Events) (fd : ℕ) (before : ℕ → Option Events)
      : Answer × K → Type 0 where
    obeyed :
        (k : K)
        → interest k fd ≡ wished
        → ((other : ℕ) → other ≢ fd → interest k other ≡ before other)
        → Follows wished fd before (accepted, k)
    declined :
        (errno : ℕ) (k : K)
        → ((other : ℕ) → interest k other ≡ before other)
        → (errno ≡ enoent → before fd ≡ none)
        → Follows wished fd before (refused errno, k)

  Follows-later :
      (wished : Option Events) (fd : ℕ) (k : K) (before : ℕ → Option Events) (answer : Answer × K)
      → ((other : ℕ) → interest k other ≡ before other)
      → Follows wished fd (interest k) answer
      → Follows wished fd before answer
  Follows-later wished fd k before _ same (obeyed k' now rest) =
      obeyed k' now (λ other h. rest other h ∙ same other)
  Follows-later wished fd k before _ same (declined errno k' rest absent) =
      declined errno k' (λ other. rest other ∙ same other) (λ h. sym (same fd) ∙ absent h)

  Follows-again_on :
      (wished : Option Events) (fd : ℕ) (before : ℕ → Option Events) (stop : ℕ)
      (retry : K → Answer × K) (answer : Answer × K)
      → ((k : K) → Follows wished fd (interest k) (retry k))
      → Follows wished fd before answer
      → Follows wished fd before (again_on stop retry answer)
  Follows-again_on wished fd before stop retry _ retried (obeyed k now rest) = obeyed k now rest
  Follows-again_on wished fd before stop retry _ retried (declined errno k rest absent) =
      if_elim (λ (a : Answer × K). Follows wished fd before a) (errno == stop)
        (λ yes. Follows-later wished fd k before (retry k) rest (retried k))
        (λ no. declined errno k rest absent)

  -- Every open controller has a descriptor of its own, and m_registered_events says what the
  -- epoll instance holds of it.
  pub record Synced (r : Reactor K) : Type 0 where
    pub distinct :
        (i j fd : ℕ)
        → (r.controllers i).handle ≡ some fd
        → (r.controllers j).handle ≡ some fd
        → i ≡ j
    pub agrees :
        (i fd : ℕ)
        → (r.controllers i).handle ≡ some fd
        → interest r.kernel fd ≡ (r.controllers i).registered_events
    pub never_bare :
        (i : ℕ) (events : Events)
        → (r.controllers i).registered_events ≡ some events
        → same_events events only_edges ≡ false

  module _ (epoll_ctl : Request → ℕ → K → Answer × K)
      (law : (request : Request) (fd : ℕ) (k : K)
        → Follows (wish request) fd (interest k) (epoll_ctl request fd k)) where
    pub Follows-call :
        (patience : ℕ) (request : Request) (fd : ℕ) (k : K)
        → Follows (wish request) fd (interest k) (call epoll_ctl patience request fd k)
    unfolding call
    Follows-call zero request fd k = law request fd k
    Follows-call (suc patience) request fd k =
        Follows-again_on (wish request) fd (interest k) eintr
          (λ k'. call epoll_ctl patience request fd k') (epoll_ctl request fd k)
          (λ k'. Follows-call patience request fd k') (law request fd k)

    pub Follows-add_or_modify :
        (patience : ℕ) (registered : Option Events) (events : Events) (fd : ℕ) (k : K)
        → Follows
            (some events)
            fd
            (interest k)
            (add_or_modify epoll_ctl patience registered events fd k)
    Follows-add_or_modify patience none events fd k = Follows-call patience (add events) fd k
    Follows-add_or_modify patience (some e) events fd k =
        Follows-again_on (some events) fd (interest k) enoent
          (λ k'. call epoll_ctl patience (add events) fd k')
          (call epoll_ctl patience (modify events) fd k)
          (λ k'. Follows-call patience (add events) fd k')
          (Follows-call patience (modify events) fd k)

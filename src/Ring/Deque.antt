-- ===== src/Ring/Deque.antt =====
-- What the ring promises: a deque of tasks with room for `capacity` of them. The owner works at the
-- back, thieves at the front.
use galay_kernel.Prelude.{
  ℕ, Bool, true, false, Option, none, some, List, [], ◌∷◌, ◌++◌, ◌≡◌, refl, ap, ◌⊎◌, inl, inr, leb,
  if◌then◌else◌, length,
}

abbrev pub push : ℕ → List ℕ → ℕ → Bool × List ℕ
push cap xs task = if leb cap (length xs) then (false, xs) else (true, xs ++ task ∷ [])

unfoldable pub pop : List ℕ → Option ℕ × List ℕ
pop [] = (none, [])
pop (x ∷ []) = (some x, [])
pop (x ∷ y ∷ ys) = let (out, rest) = pop (y ∷ ys) in (out, x ∷ rest)

abbrev pub steal : (ℕ → Bool) → List ℕ → Option ℕ × List ℕ
steal owner_only [] = (none, [])
steal owner_only (x ∷ xs) = if owner_only x then (none, x ∷ xs) else (some x, xs)

-- The owner and its thieves call in any order.
pub data Op : Type 0 where
  pushes : ℕ → Op
  pops : Op
  steals : Op

-- Whether a task was taken over, or the task handed out; `some none` would be a null task.
abbrev pub Reply : Type 0
Reply = Bool × Option (Option ℕ)

abbrev pub reply : Option ℕ → Reply
reply none = (false, none)
reply (some x) = (true, some (some x))

unfoldable pub run : ℕ → (ℕ → Bool) → List ℕ → List Op → List Reply
run cap owner_only xs [] = []
run cap owner_only xs (pushes t ∷ ops) =
    let (taken, ys) = push cap xs t in (taken, none) ∷ run cap owner_only ys ops
run cap owner_only xs (pops ∷ ops) = let (out, ys) = pop xs in reply out ∷ run cap owner_only ys ops
run cap owner_only xs (steals ∷ ops) =
    let (out, ys) = steal owner_only xs in reply out ∷ run cap owner_only ys ops

pub pop-snoc : (xs : List ℕ) (x : ℕ) → pop (xs ++ x ∷ []) ≡ (some x, xs)
unfolding pop
pop-snoc [] x = refl
pop-snoc (y ∷ []) x = refl
pop-snoc (y ∷ z ∷ zs) x = rw (pop-snoc (z ∷ zs) x)

-- `pop` fails on the empty deque alone, and otherwise splits off the task pushed last.
pub pop_cases :
    (xs : List ℕ)
    → ((xs ≡ []) × (pop xs ≡ (none, [])))
      ⊎ ((x : ℕ) × (ys : List ℕ) × (xs ≡ ys ++ x ∷ []) × (pop xs ≡ (some x, ys)))
unfolding pop
pop_cases [] = inl (refl, refl)
pop_cases (x ∷ []) = inr (x, [], refl, refl)
pop_cases (x ∷ y ∷ ys) = elim (pop_cases (y ∷ ys)) [
  | inl (e, _) ↦ absurd (cc)
  | inr (z, zs, e, p) ↦ inr (z, x ∷ zs, ap (λ ts. x ∷ ts) e, rw p refl)
]

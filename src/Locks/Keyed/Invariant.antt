-- ===== src/Locks/Keyed/Invariant.antt =====
-- The table holds exactly the locks that some thread refers to.
use cmgr.Common.{
  ℕ, zero, suc, ◌+◌, ◌<◌, ◌≤◌, ◌≡◌, ◌≢◌, refl, sym, subst, true, false, none, some, ◌==◌,
  if◌then◌else◌, arith, inl, inr, Option-cases,
}
use native.Mathlib.Decide.{dec_lt}
use cmgr.Locks.Operation.{update}
use cmgr.Locks.Keyed.{
  Pc, idle, waiting, owning, leaving, Locks, enter, leave, is_owner, Step, request, grant, unlock,
  drop, empty, Reach, start, next,
}

-- Whether a thread counts in the field `refs` of lock `l`.
abbrev pub refers : ℕ → Pc → ℕ
refers l idle = 0
refers l (waiting k m) = if m == l then 1 else 0
refers l (owning k m) = if m == l then 1 else 0
refers l (leaving k m) = if m == l then 1 else 0

pub sum_below : ℕ → (ℕ → ℕ) → ℕ
sum_below zero f = 0
sum_below (suc n) f = f n + sum_below n f

sum_update_outside :
    (w : Pc → ℕ) (n : ℕ) (s : ℕ → Pc) (i : ℕ) (p : Pc)
    → n ≤ i
    → sum_below n (λ t. w (update s i p t)) ≡ sum_below n (λ t. w (s t))
unfolding sum_below
sum_update_outside w zero s i p h = refl
sum_update_outside w (suc n) s i p h = ground (arith, sum_update_outside w n s i p)

pub sum_update :
    (w : Pc → ℕ) (n : ℕ) (s : ℕ → Pc) (i : ℕ) (p : Pc)
    → i < n
    → sum_below n (λ t. w (update s i p t)) + w (s i) ≡ sum_below n (λ t. w (s t)) + w p
unfolding sum_below
sum_update w zero s i p h = absurd (omega arith)
sum_update w (suc n) s i p h = elim (dec_lt i n) [
  | yes below ↦ ground (arith, sum_update w n s i p below)
  | no last ↦ ground (arith, sum_update_outside w n s i p)
]

one-le-sum :
    (w : Pc → ℕ) (n : ℕ) (s : ℕ → Pc) (i : ℕ) → i < n → w (s i) ≤ sum_below n (λ t. w (s t))
unfolding sum_below
one-le-sum w zero s i h = absurd (omega arith)
one-le-sum w (suc n) s i h = elim (dec_lt i n) [
  | yes below ↦ omega (arith, one-le-sum w n s i below)
  | no last ↦ ground arith
]

pub sum_zero : (n : ℕ) (f : ℕ → ℕ) → ((t : ℕ) → f t ≡ 0) → sum_below n f ≡ 0
unfolding sum_below
sum_zero zero f h = refl
sum_zero (suc n) f h = omega (arith, h n, sum_zero n f h)

-- The key and the lock of a thread that is not idle.
abbrev Uses : Pc → ℕ → ℕ → Type 0
Uses idle k l = ⊥
Uses (waiting a b) k l = (a ≡ k) × (b ≡ l)
Uses (owning a b) k l = (a ≡ k) × (b ≡ l)
Uses (leaving a b) k l = (a ≡ k) × (b ≡ l)

refers-older : (p : Pc) (m : ℕ) → ((k l : ℕ) → Uses p k l → l < m) → refers m p ≡ 0
refers-older idle m h = refl
refers-older (waiting k l) m h = ground (arith, h k l (refl, refl))
refers-older (owning k l) m h = ground (arith, h k l (refl, refl))
refers-older (leaving k l) m h = ground (arith, h k l (refl, refl))

pub record Inv (n : ℕ) (s : Locks) : Type 0 where
  pub quiet : (i : ℕ) → n ≤ i → s.pc i ≡ idle
  pub known : (i k l : ℕ) → Uses (s.pc i) k l → s.table k ≡ some l
  pub counted : (l : ℕ) → s.refs l ≡ sum_below n (λ t. refers l (s.pc t))
  pub used : (k l : ℕ) → s.table k ≡ some l → 0 < s.refs l
  pub older : (k l : ℕ) → s.table k ≡ some l → l < s.made
  pub single : (i j l : ℕ) → is_owner l (s.pc i) ≡ true → is_owner l (s.pc j) ≡ true → i ≡ j
  pub unshared : (k m l : ℕ) → s.table k ≡ some l → s.table m ≡ some l → k ≡ m

module _ {n : ℕ} {s : Locks} (v : Inv n s) where
  grant-Inv :
      (i k l : ℕ)
      → i < n
      → s.pc i ≡ waiting k l
      → ((j : ℕ) → is_owner l (s.pc j) ≡ false)
      → Inv n (record s { pc = update s.pc i (owning k l) })
  grant-Inv i k l lt e free = record {
    quiet = λ j h. ground (arith, v.quiet j);
    known = λ j a b u. ground (arith, v.known j a b, v.known i a b);
    counted = λ m. ground (arith, v.counted m, sum_update (refers m) n s.pc i (owning k l) lt);
    used = v.used;
    older = v.older;
    single = λ a b m p q. ground (arith, v.single a b m, free a, free b);
    unshared = v.unshared;
  }

  unlock-Inv :
      (i k l : ℕ)
      → i < n
      → s.pc i ≡ owning k l
      → Inv n (record s { pc = update s.pc i (leaving k l) })
  unlock-Inv i k l lt e = record {
    quiet = λ j h. ground (arith, v.quiet j);
    known = λ j a b u. ground (arith, v.known j a b, v.known i a b);
    counted = λ m. ground (arith, v.counted m, sum_update (refers m) n s.pc i (leaving k l) lt);
    used = v.used;
    older = v.older;
    single = λ a b m p q. ground (arith, v.single a b m);
    unshared = v.unshared;
  }

  -- Another user of the lock is counted beside thread `i`.
  two_users :
      (i j k l a : ℕ) → i < n → s.pc i ≡ leaving k l → j ≢ i → Uses (s.pc j) a l → 2 ≤ s.refs l
  two_users i j k l a lt e d u = elim (dec_lt j n) [
    | yes below ↦ ground (
      arith,
      v.counted l,
      sum_update (refers l) n s.pc i idle lt,
      one-le-sum (refers l) n (update s.pc i idle) j below,
    )
    | no above ↦ ground (arith, v.quiet j)
  ]

  leave-known :
      (i k l : ℕ)
      → i < n
      → s.pc i ≡ leaving k l
      → (j a b : ℕ) → Uses ((leave s i k l).pc j) a b
      → (leave s i k l).table a ≡ some b
  leave-known i k l lt e j a b u =
      ground (arith, v.known j a b, v.known i k l, two_users i j k l a lt e)

  leave-Inv : (i k l : ℕ) → i < n → s.pc i ≡ leaving k l → Inv n (leave s i k l)
  leave-Inv i k l lt e = record {
    quiet = λ j h. ground (arith, v.quiet j);
    known = leave-known i k l lt e;
    counted = λ m. ground (arith, v.counted m, v.counted l, sum_update (refers m) n s.pc i idle lt);
    used = λ a b h. ground (arith, v.used a b, v.known i k l, v.unshared a k b);
    older = λ a b h. ground (arith, v.older a b);
    single = λ a b m p q. ground (arith, v.single a b m);
    unshared = λ a b m p q. ground (arith, v.unshared a b m);
  }

  found-Inv :
      (i k l : ℕ) → i < n → s.pc i ≡ idle → s.table k ≡ some l → Inv n (enter s i k (some l))
  found-Inv i k l lt e h = record {
    quiet = λ j h. ground (arith, v.quiet j);
    known = λ j a b u. ground (arith, v.known j a b);
    counted = λ m. ground (arith, v.counted m, sum_update (refers m) n s.pc i (waiting k l) lt);
    used = λ a b p. ground (arith, v.used a b);
    older = v.older;
    single = λ a b m p q. ground (arith, v.single a b m);
    unshared = v.unshared;
  }

  -- No thread refers to a lock object that is not made yet.
  unmade : (t : ℕ) → refers s.made (s.pc t) ≡ 0
  unmade t = refers-older (s.pc t) s.made (λ k l u. v.older k l (v.known t k l u))

  made-Inv : (i k : ℕ) → i < n → s.pc i ≡ idle → s.table k ≡ none → Inv n (enter s i k none)
  made-Inv i k lt e h = record {
    quiet = λ j h. ground (arith, v.quiet j);
    known = λ j a b u. ground (arith, v.known j a b, v.older a b);
    counted = λ m. ground (
      arith,
      v.counted m,
      sum_update (refers m) n s.pc i (waiting k s.made) lt,
      sum_zero n (λ t. refers s.made (s.pc t)) unmade,
    );
    used = λ a b p. ground (arith, v.used a b, v.older a b);
    older = λ a b p. ground (arith, v.older a b);
    single = λ a b m p q. ground (arith, v.single a b m);
    unshared = λ a b m p q. ground (arith, v.unshared a b m, v.older a m, v.older b m);
  }

enter-Inv :
    {n : ℕ} {s : Locks}
    → Inv n s
    → (i k : ℕ) → i < n
    → s.pc i ≡ idle
    → Inv n (enter s i k (s.table k))
enter-Inv {n} {s} v i k lt e = elim (Option-cases (s.table k)) [
  | inl h ↦ subst (λ o. Inv n (enter s i k o)) (sym h) (made-Inv v i k lt e h)
  | inr (l, h) ↦ subst (λ o. Inv n (enter s i k o)) (sym h) (found-Inv v i k l lt e h)
]

pub Step-Inv : {n : ℕ} {s t : Locks} → Step n s t → Inv n s → Inv n t
Step-Inv (request i k lt e) v = enter-Inv v i k lt e
Step-Inv (grant i k l lt e free) v = grant-Inv v i k l lt e free
Step-Inv (unlock i k l lt e) v = unlock-Inv v i k l lt e
Step-Inv (drop i k l lt e) v = leave-Inv v i k l lt e

pub empty-Inv : (n : ℕ) → Inv n empty
empty-Inv n = record {
  quiet = λ i h. refl;
  known = λ i k l u. absurd u;
  counted = λ l. sym (sum_zero n (λ t. 0) (λ t. refl));
  used = λ k l h. cc;
  older = λ k l h. cc;
  single = λ i j l p q. cc;
  unshared = λ k m l p q. cc;
}

pub Reach-Inv : {n : ℕ} {s : Locks} → Reach n s → Inv n s
Reach-Inv {n} start = empty-Inv n
Reach-Inv (next r st) = Step-Inv st (Reach-Inv r)

-- ===== src/Web/RecoverySession/Single.antt =====
-- A recovery session has at most one holder of its current epoch.
use key_page.Prelude.{
  ℕ, zero, suc, ◌+◌, ◌≤◌, ◌≡◌, refl, Bool, true, false, not, ◌&&◌, Option, none, some, List, [],
  ◌∷◌, ◌=ℕ◌, is_some, arith, inl, inr, Bool-cases,
}
use key_page.Tables.{count}
use key_page.Web.RecoverySession.{
  Held, Attempt, Session, fresh, start, check_out, begin_complete, nth, settle, wipe_attempt,
  restore_attempt, succeed, succeeded, fail, failed, clear, Op, starts, begins, clears, succeeds,
  fails, step,
}

abbrev pub is_live : ℕ → Attempt → Bool
is_live epoch a = not a.settled && a.captured_epoch =ℕ epoch

abbrev pub one_if : Bool → ℕ
one_if true = 1
one_if false = 0

-- at most one holder of the current epoch, and no attempt of a later one
pub record IsSingle (s : Session) : Type 0 where
  pub single : one_if (is_some s.held) + count (is_live s.epoch) s.attempts ≤ 1
  pub past : (e : ℕ) → suc s.epoch ≤ e → count (is_live e) s.attempts ≡ 0

pub count-settle :
    (e i : ℕ) (rest : List Attempt) (a : Attempt)
    → nth i rest ≡ some a
    → count (is_live e) rest ≡ count (is_live e) (settle i rest) + one_if (is_live e a)
unfolding nth settle count
count-settle e i [] a h = absurd (ground (arith, h))
count-settle e zero (b ∷ rest) a h = ground (arith, h)
count-settle e (suc i) (b ∷ rest) a h = ground (arith, count-settle e i rest a h)

wipe_attempt-IsSingle :
    (i : ℕ) (a : Attempt) (s : Session)
    → nth i s.attempts ≡ some a
    → IsSingle s
    → IsSingle (wipe_attempt i a s)
unfolding wipe_attempt
wipe_attempt-IsSingle i a s h inv = record {
  single = omega (arith, inv.single, count-settle s.epoch i s.attempts a h);
  past = λ e later. omega (arith, inv.past e later, count-settle e i s.attempts a h);
}

restore_attempt-IsSingle :
    (i : ℕ) (a : Attempt) (s : Session)
    → nth i s.attempts ≡ some a
    → is_live s.epoch a ≡ true
    → IsSingle s
    → IsSingle (restore_attempt i a s)
unfolding restore_attempt
restore_attempt-IsSingle i a s h live inv = record {
  single = ground (arith, live, inv.single, count-settle s.epoch i s.attempts a h);
  past = λ e later. omega (arith, inv.past e later, count-settle e i s.attempts a h);
}

clear-IsSingle : (s : Session) → IsSingle s → IsSingle (clear s)
unfolding clear
clear-IsSingle s inv = record {
  single = omega (arith, inv.past (suc s.epoch) (omega arith));
  past = λ e later. inv.past e (omega (arith, later));
}

start-IsSingle : (h : Held) (s : Session) → IsSingle s → IsSingle (start h s)
unfolding start
start-IsSingle h s inv = record {
  single = omega (arith, inv.past (suc s.epoch) (omega arith));
  past = λ e later. inv.past e (omega (arith, later));
}

check_out-IsSingle :
    (o : Option Held) (s : Session) → s.held ≡ o → IsSingle s → IsSingle (check_out o s)
unfolding check_out count
check_out-IsSingle none s e inv = inv
check_out-IsSingle (some h) s e inv = record {
  single = ground (arith, inv.single, e);
  past = λ n later. ground (arith, inv.past n later, later);
}

succeed-IsSingle :
    (i : ℕ) (o : Option Attempt) (s : Session)
    → nth i s.attempts ≡ o
    → IsSingle s
    → IsSingle (succeed i o s).0
unfolding succeed wipe_attempt
succeed-IsSingle i none s h inv = inv
succeed-IsSingle i (some a) s h inv = elim (Bool-cases a.settled) [
  | inl e ↦ rw e inv
  | inr e ↦ rw e (wipe_attempt-IsSingle i a s h inv)
]

fail-IsSingle :
    (i : ℕ) (o : Option Attempt) (s : Session)
    → nth i s.attempts ≡ o
    → IsSingle s
    → IsSingle (fail i o s)
unfolding fail restore_attempt wipe_attempt
fail-IsSingle i none s h inv = inv
fail-IsSingle i (some a) s h inv = elim (Bool-cases a.settled) [
  | inl e ↦ rw e inv
  | inr unset ↦ elim (Bool-cases (a.captured_epoch =ℕ s.epoch)) [
    | inl same ↦
        rw (unset, same) (restore_attempt-IsSingle i a s h (ground (arith, unset, same)) inv)
    | inr other ↦ rw (unset, other) (wipe_attempt-IsSingle i a s h inv)
  ]
]

pub step-IsSingle : (op : Op) (s : Session) → IsSingle s → IsSingle (step op s)
unfolding step succeeded failed begin_complete
step-IsSingle (starts h) s inv = start-IsSingle h s inv
step-IsSingle begins s inv = check_out-IsSingle s.held s refl inv
step-IsSingle clears s inv = clear-IsSingle s inv
step-IsSingle (succeeds i) s inv = succeed-IsSingle i _ s refl inv
step-IsSingle (fails i) s inv = fail-IsSingle i _ s refl inv

pub fresh-IsSingle : IsSingle fresh
unfolding fresh count
fresh-IsSingle = record { single = omega arith; past = λ e later. refl }

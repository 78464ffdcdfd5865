-- ===== src/Web/RecoverySession/Wiped.antt =====
-- No master key of a recovery session is lost before it is zeroized.
use key_page.Prelude.{
  ℕ, zero, suc, ◌≡◌, refl, ap, Bool, true, false, not, ◌&&◌, ◌||◌, Option, none, some, List, [],
  ◌∷◌, ◌=ℕ◌, is_some, arith, inl, inr, Bool-cases,
}
use key_page.Tables.{any}
use key_page.Web.RecoverySession.{
  Held, Attempt, Session, fresh, wipe_held, start, check_out, begin_complete, nth, settle,
  wipe_attempt, restore_attempt, succeed, succeeded, fail, failed, clear, Op, starts, begins,
  clears, succeeds, fails, step, run,
}
use key_page.Web.RecoverySession.Single.{
  is_live, IsSingle, count-settle, step-IsSingle, fresh-IsSingle,
}

abbrev pub has_key : ℕ → Attempt → Bool
has_key k a = not a.settled && a.content.master_key =ℕ k

abbrev pub holds : ℕ → Option Held → Bool
holds k none = false
holds k (some h) = h.master_key =ℕ k

-- the key is held, in an attempt that is not settled, or wiped
unfoldable pub is_kept : ℕ → Session → Bool
is_kept k s = holds k s.held || any (has_key k) s.attempts || any (λ w. w =ℕ k) s.wiped

any-settle :
    (k i : ℕ) (rest : List Attempt) (a : Attempt)
    → nth i rest ≡ some a
    → any (has_key k) rest ≡ true
    → (any (has_key k) (settle i rest) || a.content.master_key =ℕ k) ≡ true
unfolding nth settle any
any-settle k i [] a h live = absurd (ground (arith, h))
any-settle k zero (b ∷ rest) a h live = ground (arith, h, live)
any-settle k (suc i) (b ∷ rest) a h live = ground (arith, any-settle k i rest a h, live)

wipe_attempt-is_kept :
    (k i : ℕ) (a : Attempt) (s : Session)
    → nth i s.attempts ≡ some a
    → is_kept k s ≡ true
    → is_kept k (wipe_attempt i a s) ≡ true
unfolding wipe_attempt is_kept any
wipe_attempt-is_kept k i a s h kept = ground (arith, kept, any-settle k i s.attempts a h)

-- the slot is free: it holds nothing that the restored content could push out
restore_attempt-is_kept :
    (k i : ℕ) (a : Attempt) (s : Session)
    → nth i s.attempts ≡ some a
    → is_live s.epoch a ≡ true
    → IsSingle s
    → is_kept k s ≡ true
    → is_kept k (restore_attempt i a s) ≡ true
unfolding restore_attempt is_kept
restore_attempt-is_kept k i a s h live inv kept =
    let empty : s.held ≡ none =
      no_held s.held (ground (arith, live, inv.single, count-settle s.epoch i s.attempts a h)) in
    ground (arith, kept, empty, any-settle k i s.attempts a h)
  where
    no_held : (o : Option Held) → is_some o ≡ false → o ≡ none
    no_held none e = refl
    no_held (some x) e = absurd (ground (arith, e))

wipe_held-is_kept :
    (k : ℕ) (o : Option Held) (wiped : List ℕ)
    → (holds k o || any (λ w. w =ℕ k) wiped) ≡ true
    → any (λ w. w =ℕ k) (wipe_held o wiped) ≡ true
unfolding wipe_held any
wipe_held-is_kept k none wiped h = h
wipe_held-is_kept k (some x) wiped h = h

start-is_kept : (k : ℕ) (h : Held) (s : Session) → is_kept k s ≡ true → is_kept k (start h s) ≡ true
unfolding start is_kept
start-is_kept k h s kept = ground (arith, kept, wipe_held-is_kept k s.held s.wiped)

clear-is_kept : (k : ℕ) (s : Session) → is_kept k s ≡ true → is_kept k (clear s) ≡ true
unfolding clear is_kept
clear-is_kept k s kept = ground (arith, kept, wipe_held-is_kept k s.held s.wiped)

check_out-is_kept :
    (k : ℕ) (o : Option Held) (s : Session)
    → s.held ≡ o
    → is_kept k s ≡ true
    → is_kept k (check_out o s) ≡ true
unfolding check_out is_kept any
check_out-is_kept k none s e kept = kept
check_out-is_kept k (some h) s e kept = ground (arith, kept, ap (holds k) e)

succeed-is_kept :
    (k i : ℕ) (o : Option Attempt) (s : Session)
    → nth i s.attempts ≡ o
    → is_kept k s ≡ true
    → is_kept k (succeed i o s).0 ≡ true
unfolding succeed wipe_attempt
succeed-is_kept k i none s h kept = kept
succeed-is_kept k i (some a) s h kept = elim (Bool-cases a.settled) [
  | inl e ↦ rw e kept
  | inr e ↦ rw e (wipe_attempt-is_kept k i a s h kept)
]

fail-is_kept :
    (k i : ℕ) (o : Option Attempt) (s : Session)
    → nth i s.attempts ≡ o
    → IsSingle s
    → is_kept k s ≡ true
    → is_kept k (fail i o s) ≡ true
unfolding fail restore_attempt wipe_attempt
fail-is_kept k i none s h inv kept = kept
fail-is_kept k i (some a) s h inv kept = elim (Bool-cases a.settled) [
  | inl e ↦ rw e kept
  | inr unset ↦ elim (Bool-cases (a.captured_epoch =ℕ s.epoch)) [
    | inl same ↦
        rw (unset, same) (restore_attempt-is_kept k i a s h (ground (arith, unset, same)) inv kept)
    | inr other ↦ rw (unset, other) (wipe_attempt-is_kept k i a s h kept)
  ]
]

starts-is_kept :
    (k : ℕ) (h : Held) (s : Session)
    → (h.master_key =ℕ k) ≡ true
    → is_kept k (step (starts h) s) ≡ true
unfolding step start is_kept
starts-is_kept k h s e = ground (arith, e)

step-is_kept :
    (k : ℕ) (op : Op) (s : Session) → IsSingle s → is_kept k s ≡ true → is_kept k (step op s) ≡ true
unfolding step succeeded failed begin_complete
step-is_kept k (starts h) s inv kept = start-is_kept k h s kept
step-is_kept k begins s inv kept = check_out-is_kept k s.held s refl kept
step-is_kept k clears s inv kept = clear-is_kept k s kept
step-is_kept k (succeeds i) s inv kept = succeed-is_kept k i _ s refl kept
step-is_kept k (fails i) s inv kept = fail-is_kept k i _ s refl inv kept

-- the page gave the key to the session
unfoldable pub was_started : ℕ → List Op → Bool
was_started k [] = false
was_started k (starts h ∷ ops) = h.master_key =ℕ k || was_started k ops
was_started k (begins ∷ ops) = was_started k ops
was_started k (clears ∷ ops) = was_started k ops
was_started k (succeeds i ∷ ops) = was_started k ops
was_started k (fails i ∷ ops) = was_started k ops

run-is_kept :
    (k : ℕ) (ops : List Op) (s : Session)
    → IsSingle s
    → (is_kept k s || was_started k ops) ≡ true
    → is_kept k (run ops s) ≡ true
unfolding run was_started
run-is_kept k [] s inv h = ground (arith, h)
run-is_kept k (starts x ∷ ops) s inv h =
    run-is_kept k ops (step (starts x) s) (step-IsSingle (starts x) s inv)
      (ground (arith, h, step-is_kept k (starts x) s inv, starts-is_kept k x s))
run-is_kept k (begins ∷ ops) s inv h =
    run-is_kept k ops (step begins s) (step-IsSingle begins s inv)
      (ground (arith, h, step-is_kept k begins s inv))
run-is_kept k (clears ∷ ops) s inv h =
    run-is_kept k ops (step clears s) (step-IsSingle clears s inv)
      (ground (arith, h, step-is_kept k clears s inv))
run-is_kept k (succeeds i ∷ ops) s inv h =
    run-is_kept k ops (step (succeeds i) s) (step-IsSingle (succeeds i) s inv)
      (ground (arith, h, step-is_kept k (succeeds i) s inv))
run-is_kept k (fails i ∷ ops) s inv h =
    run-is_kept k ops (step (fails i) s) (step-IsSingle (fails i) s inv)
      (ground (arith, h, step-is_kept k (fails i) s inv))

-- After any operations of the page in any order, a master key that was given to the session is held
-- by it, in an attempt that is not settled, or zeroized: none is dropped without being zeroized.
pub run-fresh_is_kept :
    (k : ℕ) (ops : List Op) → was_started k ops ≡ true → is_kept k (run ops fresh) ≡ true
run-fresh_is_kept k ops h = run-is_kept k ops fresh fresh-IsSingle (ground (arith, h))

-- After any operations, a lock zeroizes every master key that was given to the session and is in no
-- attempt that is not settled.
pub clear-run_wipes :
    (k : ℕ) (ops : List Op)
    → was_started k ops ≡ true
    → any (has_key k) (run ops fresh).attempts ≡ false
    → any (λ w. w =ℕ k) (clear (run ops fresh)).wiped ≡ true
unfolding clear is_kept
clear-run_wipes k ops h settled = ground (
  arith,
  settled,
  run-fresh_is_kept k ops h,
  wipe_held-is_kept k (run ops fresh).held (run ops fresh).wiped,
)

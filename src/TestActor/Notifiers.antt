-- ===== src/TestActor/Notifiers.antt =====
-- The notifier with which the tests follow the deadlines that the application is told (lib.rs). The value
-- that two threads share is that of SeqLock; here one call runs at a time.
use tansiv.Base.{ℕ, zero, suc, ◌+◌, ◌*◌, ◌≡◌, refl, ap, ◌∙◌, List, [], ◌∷◌, ◌++◌, arith}

-- `DeadlineNotifierData`
pub record DeadlineNotifier : Type 0 where
  pub deadline : ℕ
  pub num_called : ℕ

-- `INITIAL_DEADLINE`, and no call.
unfoldable pub new : DeadlineNotifier
new = record { deadline = 0; num_called = 0 }

unfoldable pub notify : DeadlineNotifier → ℕ → DeadlineNotifier
notify n deadline = record { deadline = deadline; num_called = n.num_called + 1 }

-- The notifier as a callback, for a log of calls.
abbrev pub notified : DeadlineNotifier → List ℕ → DeadlineNotifier
notified n [] = n
notified n (d ∷ ds) = notified (notify n d) ds

-- The ends of `k` slices, the first of which starts at `d`.
abbrev pub marks : ℕ → ℕ → List ℕ
marks zero d = []
marks (suc k) d = (d + 100_000) ∷ marks k (d + 100_000)

pub marks-suc : (k d : ℕ) {x : ℕ} → x ≡ d + suc k * 100_000 → marks (suc k) d ≡ marks k d ++ x ∷ []
marks-suc zero d e = ap (λ y. y ∷ []) (omega (arith, e))
marks-suc (suc k) d e = ap (λ l. (d + 100_000) ∷ l) (marks-suc k (d + 100_000) (omega (arith, e)))

-- Each slice is announced once.
pub notified-marks :
    (k d : ℕ) (n : DeadlineNotifier)
    → n.deadline ≡ d
    → ((notified n (marks k d)).num_called ≡ n.num_called + k)
      × ((notified n (marks k d)).deadline ≡ d + k * 100_000)
unfolding notify
notified-marks zero d n e = (omega arith, e ∙ omega arith)
notified-marks (suc k) d n e =
    let (c, t) = notified-marks k (d + 100_000) (notify n (d + 100_000)) refl in
    (c ∙ omega arith, t ∙ omega arith)

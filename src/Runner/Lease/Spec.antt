-- ===== src/Runner/Lease/Spec.antt =====
-- What a lease promises: an identity that never changes, an expiry that only grows while the lease is
-- alive, and an end that is final.
use digital_employee.Common.{ℕ, Bool, true, false, ◌||◌, ◌≡◌, refl, ◌<◌, ◌≤◌, arith}
use digital_employee.Runner.Lease.{LeaseIdentity, LeaseState}

pub record Grant : Type 0 where
  pub identity : LeaseIdentity
  pub until : ℕ
  pub over : Bool

pub data Step : Grant → Grant → Type 0 where
  extends : (g : Grant) (n : ℕ) → g.over ≡ false → g.until < n → Step g (record g { until = n })
  ends : (g : Grant) → Step g (record g { over = true })

pub data Steps (g : Grant) : Grant → Type 0 where
  stays : Steps g g
  more : {h k : Grant} → Steps g h → Step h k → Steps g k

pub Steps-trans : {g h k : Grant} → Steps g h → Steps h k → Steps g k
Steps-trans p stays = p
Steps-trans p (more q s) = more (Steps-trans p q) s

-- What every run of a lease keeps.
pub record Extends (g h : Grant) : Type 0 where
  pub identity : h.identity ≡ g.identity
  pub until : g.until ≤ h.until
  pub final : g.over ≡ true → h.over ≡ true
  pub frozen : g.over ≡ true → h.until ≡ g.until

Extends-refl : (g : Grant) → Extends g g
Extends-refl g = record { identity = refl; until = omega arith; final = λ h. h; frozen = λ h. refl }

Step-Extends : {f g h : Grant} → Extends f g → Step g h → Extends f h
Step-Extends e (extends g n alive longer) = record {
  identity = e.identity;
  until = omega (arith, e.until, longer);
  final = e.final;
  frozen = λ h. cc (e.final h, alive);
}
Step-Extends e (ends g) = record {
  identity = e.identity;
  until = e.until;
  final = λ h. refl;
  frozen = e.frozen;
}

pub Steps-Extends : {g h : Grant} → Steps g h → Extends g h
Steps-Extends {g} stays = Extends-refl g
Steps-Extends (more p s) = Step-Extends (Steps-Extends p) s

abbrev pub view : LeaseState → Grant
view s = record {
  identity = s.task.identity;
  until = s.task.lease_expires_at;
  over = s.closed || s.aborted;
}

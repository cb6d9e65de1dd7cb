-- ===== src/Security/Agreement.antt =====
-- When the sessions of SecurityManager and the ledger agree, and how a test leaves them.
use simple_nfsd.Prelude.{
  ℕ, ◌≤◌, ◌≡◌, refl, subst, Bool, true, false, List, Option, none, some, if◌then◌else◌, arith,
}
use simple_nfsd.Map.{find, Sorted}
use simple_nfsd.Map.Laws.{retained}
use simple_nfsd.Text.Order.{text_key}
use simple_nfsd.Security.{SecurityContext, SecurityManager}
use simple_nfsd.Security.Ledger.{Ledger, young}

-- A context that has expired stays expired.
pub young_mono :
    (timeout t now : ℕ) (c : SecurityContext)
    → t ≤ now
    → young timeout now c ≡ true
    → young timeout t c ≡ true
young_mono timeout t now c h y = ground arith

-- The manager knows of every session that is, or becomes, young at time `t` or later.
pub record Agrees (t : ℕ) (m : SecurityManager) (l : Ledger) : Type 0 where
  pub running : m.initialized ≡ l.running
  pub timeout : m.config.session_timeout ≡ l.timeout
  pub sorted : Sorted m.active_sessions
  pub idle :
      l.running ≡ false → (id : List ℕ) → (find id m.active_sessions ≡ none) × (l.holds id ≡ none)
  pub lookups :
      (now : ℕ)
      → t ≤ now
      → (id : List ℕ)
      → retained (young l.timeout now) (find id m.active_sessions)
        ≡ retained (young l.timeout now) (l.holds id)

pub retained_absorb :
    (p q : SecurityContext → Bool) (x : Option SecurityContext)
    → ((c : SecurityContext) → p c ≡ true → q c ≡ true)
    → retained p (retained q x) ≡ retained p x
retained_absorb p q none h = refl
retained_absorb p q (some c) h = ground (arith, h c)

pub Agrees-later :
    (t now : ℕ) (m : SecurityManager) (l : Ledger) → t ≤ now → Agrees t m l → Agrees now m l
Agrees-later t now m l h a = record {
  running = a.running;
  timeout = a.timeout;
  sorted = a.sorted;
  idle = a.idle;
  lookups = λ u k. a.lookups u (omega (arith, h, k));
}

-- Where code and ledger take the same turn, it is enough to look at each.
pub pair-Agrees :
    {A : Type 0} (now : ℕ) (b d : Bool) (x y : SecurityManager × A) (u v : Ledger)
    → b ≡ d
    → (d ≡ true → Agrees now x.0 u)
    → (d ≡ false → Agrees now y.0 v)
    → Agrees now (if b then x else y).0 (if d then u else v)
pair-Agrees now true true x y u v e h k = h refl
pair-Agrees now false false x y u v e h k = k refl
pair-Agrees now true false x y u v e h k = absurd (cc)
pair-Agrees now false true x y u v e h k = absurd (cc)

pub choice-Agrees :
    {A : Type 0} (now : ℕ) (b : Bool) (x y : SecurityManager × A) (l : Ledger)
    → (b ≡ true → Agrees now x.0 l)
    → (b ≡ false → Agrees now y.0 l)
    → Agrees now (if b then x else y).0 l
choice-Agrees now true x y l h k = h refl
choice-Agrees now false x y l h k = k refl

pub either-Agrees :
    (now : ℕ) (b : Bool) (x y : SecurityManager) (l : Ledger)
    → (b ≡ true → Agrees now x l)
    → (b ≡ false → Agrees now y l)
    → Agrees now (if b then x else y) l
either-Agrees now true x y l h k = h refl
either-Agrees now false x y l h k = k refl

pub turn-Agrees :
    (now : ℕ) (b d : Bool) (x y : SecurityManager) (u v : Ledger)
    → b ≡ d
    → (d ≡ true → Agrees now x u)
    → (d ≡ false → Agrees now y v)
    → Agrees now (if b then x else y) (if d then u else v)
turn-Agrees now b d x y u v e h k =
    subst (λ w. Agrees now w (if d then u else v)) (ground arith)
      (pair-Agrees now b d (x, tt) (y, tt) u v e h k)

-- ===== src/Os.antt =====
-- Calls of the operating system. A program is run against an environment that answers each call,
-- where the answer may depend on all calls so far; the run keeps the trace of calls and answers.
pub mod Descriptors
pub mod Tasks
use esp_network_examples.Prelude.{ℕ, ℤ, Bool, true, false, List, ◌∷◌, if◌then◌else◌}

-- The error numbers that the programs tell apart. EWOULDBLOCK is EAGAIN, as on lwIP and Linux.
pub data Errno : Type 0 where
  einprogress eagain enotconn other : Errno

pub record Answer : Type 0 where
  pub ret : ℤ
  pub errno : Errno
  pub bytes : List ℕ

-- The latest call stands first.
abbrev pub Trace : Type 0 → Type 0
Trace C = List (C × Answer)

abbrev pub Env : Type 0 → Type 0
Env C = Trace C → C → Answer

abbrev pub Io : Type 0 → Type 0 → Type 0
Io C A = Trace C → A × Trace C

abbrev pub ask : {C : Type 0} → Env C → C → Io C Answer
ask env c t = (env t c, (c, env t c) ∷ t)

abbrev pub return : {C A : Type 0} → A → Io C A
return a t = (a, t)

infixl 5 ◌>>=◌ ◌>>◌
abbrev pub ◌>>=◌ : {C A B : Type 0} → Io C A → (A → Io C B) → Io C B
◌>>=◌ m f t = f (m t).0 (m t).1

abbrev pub ◌>>◌ : {C A B : Type 0} → Io C A → Io C B → Io C B
◌>>◌ m k t = k (m t).1

-- A property of runs that both branches have.
pub if_both :
    {C A : Type 0} (P : A × Trace C → Type 0) (b : Bool) (x y : Io C A) (t : Trace C)
    → P (x t)
    → P (y t)
    → P ((if b then x else y) t)
if_both P true x y t p q = p
if_both P false x y t p q = q

-- ===== src/Handlers/Outcomes.antt =====
-- How the handlers end: postconditions of actions, one rule for each way to build an action.
pub mod Emptiness
pub mod NeverEmpty
pub mod Quiet
use zabbix_agent2_plugin_pos.Prelude.{◌≡◌, refl, Bool, true, false, if◌then◌else◌}
use zabbix_agent2_plugin_pos.Errors.{
  Error, Result, ok, err, panic, Act, return, fail, on_error, branch, and_then,
}
use zabbix_agent2_plugin_pos.Handlers.Fetch.{lift}

-- What an outcome satisfies: its error `E`, its value `Q`. A panic satisfies everything.
abbrev pub Outcome : {A : Type 0} → (Error → Type 0) → (A → Type 0) → Result A → Type 0
Outcome E Q (ok a) = Q a
Outcome E Q (err e) = E e
Outcome E Q panic = Unit {0}

-- From every world the action ends so.
pub record Ends {W A : Type 0} (E : Error → Type 0) (Q : A → Type 0) (m : Act W A) : Type 0 where
  pub at : (w : W) → Outcome E Q (m w).0

abbrev pub Any : {A : Type 0} → A → Type 0
Any a = Unit {0}

module _ {W A : Type 0} {E : Error → Type 0} {Q : A → Type 0} where
  pub Ends-return : (a : A) → Q a → Ends E Q (return {W = W} a)
  Ends-return a q = record { at = λ w. q }

  pub Ends-fail : (e : Error) → E e → Ends E Q (fail {W = W} {A = A} e)
  Ends-fail e p = record { at = λ w. p }

  pub Ends-lift : (r : Result A) → Outcome E Q r → Ends E Q (lift {W = W} r)
  Ends-lift r o = record { at = λ w. o }

  pub Ends-if : (b : Bool) (m n : Act W A) → Ends E Q m → Ends E Q n → Ends E Q (if b then m else n)
  Ends-if true m n p q = p
  Ends-if false m n p q = q

module _ {W A B : Type 0} {E E' : Error → Type 0} {Q : A → Type 0} {R : B → Type 0} where
  Ends-branch :
      (handle : Error → Act W B) (use_value : A → Act W B) (r : Result A)
      → Outcome E Q r
      → ((e : Error) → E e → Ends E' R (handle e))
      → ((a : A) → Q a → Ends E' R (use_value a))
      → Ends E' R (branch handle use_value r)
  Ends-branch handle use_value (ok a) o h u = record { at = (u a o).at }
  Ends-branch handle use_value (err e) o h u = record { at = (h e o).at }
  Ends-branch handle use_value panic o h u = record { at = λ w. tt }

  pub Ends-on_error :
      (m : Act W A) (handle : Error → Act W B) (use_value : A → Act W B)
      → Ends E Q m
      → ((e : Error) → E e → Ends E' R (handle e))
      → ((a : A) → Q a → Ends E' R (use_value a))
      → Ends E' R (on_error m handle use_value)
  Ends-on_error m handle use_value p h u = record {
    at = λ w. let (r, w') = m w in (Ends-branch handle use_value r (p.at w) h u).at w';
  }

-- The same of calls that leave the world alone, where the first error stays.
pub Outcome-and_then :
    {A B : Type 0} {E E' : Error → Type 0} {Q : A → Type 0} (R : B → Type 0) (r : Result A)
    (f : A → Result B)
    → Outcome E Q r
    → ((e : Error) → E e → E' e)
    → ((a : A) → Q a → Outcome E' R (f a))
    → Outcome E' R (and_then r f)
Outcome-and_then R (ok a) f o h u = u a o
Outcome-and_then R (err e) f o h u = h e o
Outcome-and_then R panic f o h u = tt

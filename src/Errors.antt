-- ===== src/Errors.antt =====
-- Errors as values: the sentinels that plugin/*.go names, the constants of the SDK's zbxerr, the
-- errors that the code makes, and what `errors.Is` finds in them. `Result` is a Go pair of a value
-- and an error, of which one is nil, or a panic.
use zabbix_agent2_plugin_pos.Prelude.{String, ◌≡◌, refl, ◌⊎◌, inl, inr, Bool, true, false}

-- zbxerr.ErrorInvalidParams and so on, those that the plugin returns.
pub data ZbxError : Type 0 where
  invalid_params cannot_fetch_data empty_result cannot_parse_result unsupported_metric : ZbxError

pub data Error : Type 0 where
  -- sql.ErrNoRows, pgx.ErrNoRows, context.DeadlineExceeded: values of different packages.
  sql_no_rows pgx_no_rows deadline_exceeded : Error
  -- A constant of zbxerr, returned bare.
  const : ZbxError → Error
  -- errors.New, fmt.Errorf, errs.New and errs.Errorf.
  new : String → Error
  -- An error of the driver or of the SDK, with its text.
  foreign : String → Error
  -- errs.Wrap(err, msg) of an error that is not nil.
  wrap : Error → String → Error
  -- zbxerr.X.Wrap(err), and errs.WrapConst(err, zbxerr.X).
  wrap_const : ZbxError → Error → Error
  -- errs.Wrap(zbxerr.X, err.Error()): only the text of err is kept.
  wrap_text : ZbxError → Error → Error

-- errors.Is(err, pgx.ErrNoRows)
unfoldable pub is_pgx_no_rows : Error → Bool
is_pgx_no_rows pgx_no_rows = true
is_pgx_no_rows (wrap e msg) = is_pgx_no_rows e
is_pgx_no_rows (wrap_const z e) = is_pgx_no_rows e
is_pgx_no_rows _ = false

-- errors.Is(err, context.DeadlineExceeded)
unfoldable pub is_deadline_exceeded : Error → Bool
is_deadline_exceeded deadline_exceeded = true
is_deadline_exceeded (wrap e msg) = is_deadline_exceeded e
is_deadline_exceeded (wrap_const z e) = is_deadline_exceeded e
is_deadline_exceeded _ = false

pub data Result {ℓ} (A : Type ℓ) : Type ℓ where
  ok : A → Result A
  err : Error → Result A
  panic : Result A

pub Result-cases {ℓ} :
    {A : Type ℓ} (r : Result A) → ((a : A) × (r ≡ ok a)) ⊎ ((e : Error) × (r ≡ err e)) ⊎ (r ≡ panic)
Result-cases (ok a) = inl (a, refl)
Result-cases (err e) = inr (inl (e, refl))
Result-cases panic = inr (inr refl)

pub ok-injective {ℓ} : {A : Type ℓ} (a b : A) → ok a ≡ ok b → a ≡ b
ok-injective a b h = cc

-- The next call, unless this one failed.
abbrev pub and_then {ℓ κ} : {A : Type ℓ} {B : Type κ} → Result A → (A → Result B) → Result B
and_then (ok a) f = f a
and_then (err e) f = err e
and_then panic f = panic

-- Both calls succeed where the two in sequence do.
pub and_then-inverse {ℓ κ} :
    {A : Type ℓ} {B : Type κ} (r : Result A) (f : A → Result B) (b : B)
    → and_then r f ≡ ok b
    → (a : A) × (r ≡ ok a) × (f a ≡ ok b)
and_then-inverse (ok a) f b h = (a, refl, h)
and_then-inverse (err e) f b h = cc
and_then-inverse panic f b h = cc

-- An action over the world `W`: it changes the world also where it fails.
abbrev pub Act : Type 0 → Type 0 → Type 0
Act W A = W → Result A × W

abbrev pub return : {W A : Type 0} → A → Act W A
return a w = (ok a, w)

abbrev pub fail : {W A : Type 0} → Error → Act W A
fail e w = (err e, w)

-- What a Go function does with the outcome of a call: use the value, or pass the error to the
-- branch under `if err != nil`.
abbrev pub branch : {W A B : Type 0} → (Error → Act W B) → (A → Act W B) → Result A → Act W B
branch handle use_value (ok a) w = use_value a w
branch handle use_value (err e) w = handle e w
branch handle use_value panic w = (panic, w)

abbrev pub on_error : {W A B : Type 0} → Act W A → (Error → Act W B) → (A → Act W B) → Act W B
on_error m handle use_value w = let (r, w') = m w in branch handle use_value r w'

infixl 5 ◌>>=◌ ◌>>◌
abbrev pub ◌>>=◌ : {W A B : Type 0} → Act W A → (A → Act W B) → Act W B
m >>= f = on_error m fail f

abbrev pub ◌>>◌ : {W A B : Type 0} → Act W A → Act W B → Act W B
m >> k = m >>= λ _. k

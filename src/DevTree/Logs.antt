-- ===== src/DevTree/Logs.antt =====
-- Runs of system programs with their answers, and what holds of every one of them.
use mathlib.Core.List.{append_assoc}
use go_runit.Common.{ℕ, suc, ◌≡◌, ap, refl, Option, none, some, List, [], ◌∷◌, ◌++◌}
use go_runit.Wire.{Bytes}
use go_runit.DevTree.{Answer, Request, SystemProgram, ends, asks, DevTreeError, on_error}

abbrev pub Log : Type 0
Log = List (Request × Answer)

-- A run: its value, and the requests with their answers.
abbrev pub logged {ℓ} : {A : Type ℓ} → (ℕ → Answer) → ℕ → SystemProgram A → A × Log
logged w n (ends a) = (a, [])
logged w n (asks q k) = let r = logged w (suc n) (k (w n)) in (r.0, (q, w n) ∷ r.1)

-- Whatever the answers, the value and the log of a run satisfy `P`.
abbrev pub Always {ℓ} : {A : Type ℓ} → (A → Log → Type 0) → SystemProgram A → Type 0
Always P (ends a) = P a []
Always P (asks q k) = (r : Answer) → Always (λ a l. P a ((q, r) ∷ l)) (k r)

pub logged-Always {ℓ} :
    {A : Type ℓ} (P : A → Log → Type 0) (w : ℕ → Answer) (n : ℕ) (p : SystemProgram A)
    → Always P p
    → P (logged w n p).0 (logged w n p).1
logged-Always P w n (ends a) h = h
logged-Always P w n (asks q k) h =
    logged-Always (λ a l. P a ((q, w n) ∷ l)) w (suc n) (k (w n)) (h (w n))

pub Always-map {ℓ} :
    {A : Type ℓ} (P Q : A → Log → Type 0) (p : SystemProgram A)
    → ((a : A) (l : Log) → P a l → Q a l)
    → Always P p
    → Always Q p
Always-map P Q (ends a) f h = f a [] h
Always-map P Q (asks q k) f h = λ r.
    Always-map (λ a l. P a ((q, r) ∷ l)) (λ a l. Q a ((q, r) ∷ l)) (k r) (λ a l. f a ((q, r) ∷ l))
      (h r)

pub Always-bind {ℓ κ} :
    {A : Type ℓ} {B : Type κ} (P : B → Log → Type 0) (p : SystemProgram A) (f : A → SystemProgram B)
    → Always (λ a l. Always (λ b m. P b (l ++ m)) (f a)) p
    → Always P (go_runit.DevTree.◌>>=◌ p f)
Always-bind P (ends a) f h = h
Always-bind P (asks q k) f h = λ r. Always-bind (λ b l. P b ((q, r) ∷ l)) (k r) f (h r)

-- `if err != nil { … }`
pub on_error-Always :
    (P : Option DevTreeError → Log → Type 0) (e : Option Bytes)
    (failed : Bytes → SystemProgram (Option DevTreeError))
    (rest : SystemProgram (Option DevTreeError))
    → ((x : Bytes) → e ≡ some x → Always P (failed x))
    → (e ≡ none → Always P rest)
    → Always P (on_error e failed rest)
on_error-Always P none failed rest f g = g refl
on_error-Always P (some x) failed rest f g = f x refl

-- What the entries of a log come to, one after another.
abbrev pub of_log {ℓ} : {A : Type ℓ} → (Request × Answer → List A) → Log → List A
of_log f [] = []
of_log f (x ∷ xs) = f x ++ of_log f xs

of_log-append {ℓ} :
    {A : Type ℓ} (f : Request × Answer → List A) (l m : Log)
    → of_log f (l ++ m) ≡ of_log f l ++ of_log f m
of_log-append f [] m = refl
of_log-append f (x ∷ xs) m =
    rw (append_assoc (f x) (of_log f xs) (of_log f m)) (ap (λ l. f x ++ l) (of_log-append f xs m))

pub of_log-quiet {ℓ} :
    {A : Type ℓ} (f : Request × Answer → List A) (l m : Log)
    → of_log f l ≡ []
    → of_log f (l ++ m) ≡ of_log f m
of_log-quiet f l m h = rw (of_log-append f l m, h) refl

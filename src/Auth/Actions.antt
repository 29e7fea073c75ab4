-- ===== src/Auth/Actions.antt =====
-- Code that changes a state and may return an error: the state is passed on, and what was written
-- before the error stays.
use nsp_platform.Base.{String, ◌≡◌, refl}
use nsp_platform.Auth.Errors.{Result, ok, err, AuthError, wrapped}

abbrev pub Act : Type 0 → Type 0 → Type 0
Act T A = T → Result A × T

infixl 5 ◌>>=◌ ◌>>◌
abbrev pub continue : {T A B : Type 0} → (A → Act T B) → Result A × T → Result B × T
continue f (ok a, t) = f a t
continue f (err e, t) = (err e, t)

unfoldable pub ◌>>=◌ : {T A B : Type 0} → Act T A → (A → Act T B) → Act T B
◌>>=◌ m f t = continue f (m t)

abbrev pub ◌>>◌ : {T A B : Type 0} → Act T A → Act T B → Act T B
m >> k = m >>= λ _. k

unfoldable pub pure : {T A : Type 0} → A → Act T A
pure a t = (ok a, t)

-- A function that changes nothing.
unfoldable pub lift : {T A : Type 0} → Result A → Act T A
lift r t = (r, t)

unfoldable pub raise : {T A : Type 0} → AuthError → Act T A
raise e t = (err e, t)

unfoldable pub modify : {T : Type 0} → (T → T) → Act T (Unit {0})
modify f t = (ok tt, f t)

unfoldable pub get : {T : Type 0} → Act T T
get t = (ok t, t)

abbrev pub with_prefix : {A : Type 0} → String → Result A → Result A
with_prefix text (ok a) = ok a
with_prefix text (err e) = err (wrapped text e)

-- `return fmt.Errorf("text: %w", err)` where an action fails.
unfoldable pub annotate : {T A : Type 0} → String → Act T A → Act T A
annotate text m t = let (r, t') = m t in (with_prefix text r, t')

continue-ok :
    {T A B : Type 0} (f : A → Act T B) (r : Result A × T) (b : B)
    → (continue f r).0 ≡ ok b
    → (a : A) × (r.0 ≡ ok a) × ((f a r.1).0 ≡ ok b)
continue-ok f (ok a, t) b h = (a, refl, h)
continue-ok f (err e, t) b h = cc h

-- A chain of actions succeeds only if each of them does.
pub bind-ok :
    {T A B : Type 0} (m : Act T A) (f : A → Act T B) (t : T) (b : B)
    → ((m >>= f) t).0 ≡ ok b
    → (a : A) × ((m t).0 ≡ ok a) × ((f a (m t).1).0 ≡ ok b)
unfolding ◌>>=◌
bind-ok m f t b h = continue-ok f (m t) b h

continue-run :
    {T A B : Type 0} (f : A → Act T B) (r : Result A × T) (a : A)
    → r.0 ≡ ok a
    → continue f r ≡ f a r.1
continue-run f (r, t) a h = rw h refl

pub bind-run :
    {T A B : Type 0} (m : Act T A) (f : A → Act T B) (t : T) (a : A)
    → (m t).0 ≡ ok a
    → (m >>= f) t ≡ f a (m t).1
unfolding ◌>>=◌
bind-run m f t a h = continue-run f (m t) a h

with_prefix-ok :
    {A : Type 0} (text : String) (r : Result A) (a : A) → with_prefix text r ≡ ok a → r ≡ ok a
with_prefix-ok text (ok b) a h = h
with_prefix-ok text (err e) a h = cc h

pub annotate-ok :
    {T A : Type 0} (text : String) (m : Act T A) (t : T) (a : A)
    → (annotate text m t).0 ≡ ok a
    → (m t).0 ≡ ok a
unfolding annotate
annotate-ok text m t a h = with_prefix-ok text (m t).0 a h

continue-state :
    {T A B : Type 0} (P : T → Type 0) (f : A → Act T B) (r : Result A × T)
    → P r.1
    → ((a : A) → P (f a r.1).1)
    → P (continue f r).1
continue-state P f (ok a, t) h k = k a
continue-state P f (err e, t) h k = h

-- What holds of the state behind the first action, and behind the rest from there.
pub bind-state :
    {T A B : Type 0} (P : T → Type 0) (m : Act T A) (f : A → Act T B) (t : T)
    → P (m t).1
    → ((a : A) → P (f a (m t).1).1)
    → P ((m >>= f) t).1
unfolding ◌>>=◌
bind-state P m f t h k = continue-state P f (m t) h k

-- What holds of the error, if there is one.
abbrev pub Errors : {A : Type 0} → (AuthError → Type 0) → Result A → Type 0
Errors P (ok a) = Unit
Errors P (err e) = P e

continue-Errors :
    {T A B : Type 0} (P : AuthError → Type 0) (f : A → Act T B) (r : Result A × T)
    → Errors P r.0
    → ((a : A) → Errors P (f a r.1).0)
    → Errors P (continue f r).0
continue-Errors P f (ok a, t) h k = k a
continue-Errors P f (err e, t) h k = h

-- A chain of actions fails with an error of the first action or of the rest.
pub bind-Errors :
    {T A B : Type 0} (P : AuthError → Type 0) (m : Act T A) (f : A → Act T B) (t : T)
    → Errors P (m t).0
    → ((a : A) → Errors P (f a (m t).1).0)
    → Errors P ((m >>= f) t).0
unfolding ◌>>=◌
bind-Errors P m f t h k = continue-Errors P f (m t) h k

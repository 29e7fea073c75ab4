-- ===== src/Saga/Chains.antt =====
-- Chains of actions: what holds if all of them succeed, and what holds whatever becomes of them.
use nsp_platform.Base.{String, ◌≡◌, refl}
use nsp_platform.Saga.Errors.{Result, ok, err}
use nsp_platform.Saga.Runtime.{World, M, ◌>>=◌, continue, annotate, with_prefix}

continue-ok :
    {A B : Type 0} (f : A → M B) (r : Result A × World) (b : B)
    → (continue f r).0 ≡ ok b
    → (a : A) × (r.0 ≡ ok a) × ((f a r.1).0 ≡ ok b)
continue-ok f (ok a, w) b h = (a, refl, h)
continue-ok f (err e, w) b h = cc h

pub bind-ok :
    {A B : Type 0} (m : M A) (f : A → M B) (w : World) (b : B)
    → ((m >>= f) w).0 ≡ ok b
    → (a : A) × ((m w).0 ≡ ok a) × ((f a (m w).1).0 ≡ ok b)
unfolding ◌>>=◌
bind-ok m f w b h = continue-ok f (m w) b h

continue-world :
    {A B : Type 0} (P : World → Type 0) (f : A → M B) (r : Result A × World)
    → P r.1
    → ((a : A) → P (f a r.1).1)
    → P (continue f r).1
continue-world P f (ok a, w) h k = k a
continue-world P f (err e, w) h k = h

pub bind-world :
    {A B : Type 0} (P : World → Type 0) (m : M A) (f : A → M B) (w : World)
    → P (m w).1
    → ((a : A) → P (f a (m w).1).1)
    → P ((m >>= f) w).1
unfolding ◌>>=◌
bind-world P m f w h k = continue-world P f (m w) h k

with_prefix-ok :
    {A : Type 0} (text : String) (r : Result A) (a : A) → with_prefix text r ≡ ok a → r ≡ ok a
with_prefix-ok text (ok b) a h = h
with_prefix-ok text (err e) a h = cc h

pub annotate-ok :
    {A : Type 0} (text : String) (m : M A) (w : World) (a : A)
    → (annotate text m w).0 ≡ ok a
    → (m w).0 ≡ ok a
unfolding annotate
annotate-ok text m w a h = with_prefix-ok text (m w).0 a h

continue-err :
    {A B : Type 0} (f : A → M B) (r : Result A × World) (e : nsp_platform.Saga.Errors.Error)
    → r.0 ≡ err e
    → continue f r ≡ (err e, r.1)
continue-err f (r, w) e h = rw h refl

pub bind-err :
    {A B : Type 0} (m : M A) (f : A → M B) (w : World) (e : nsp_platform.Saga.Errors.Error)
    → (m w).0 ≡ err e
    → (m >>= f) w ≡ (err e, (m w).1)
unfolding ◌>>=◌
bind-err m f w e h = continue-err f (m w) e h

-- ===== src/Exec/Laws.antt =====
-- Laws of handlers.
use advanced_wallets.Base.{◌≡◌, refl, List}
use advanced_wallets.Exec.{Exn, Call, Result, ok, err, World, Exec, done, ask, catch, ◌>>=◌, run}

module _ {ℓ κ} {A : Type ℓ} {B : Type κ} (w : World) where
  -- How a handler goes on from the outcome of its first part.
  abbrev pub continue : (A → Exec B) → Result A × List Call → Result B × List Call
  continue f (ok a, t) = run w (f a) t
  continue f (err e, t) = (err e, t)

  pub run-bind :
      (m : Exec A) (f : A → Exec B) (t : List Call) → run w (m >>= f) t ≡ continue f (run w m t)
  unfolding run
  run-bind (done (ok a)) f t = refl
  run-bind (done (err e)) f t = refl
  run-bind (ask c k) f t = run-bind (k (w.reply t c)) f _

module _ {ℓ} {A : Type ℓ} (w : World) where
  abbrev pub rescue : (Exn → Exec A) → Result A × List Call → Result A × List Call
  rescue h (ok a, t) = (ok a, t)
  rescue h (err e, t) = run w (h e) t

  pub run-catch :
      (m : Exec A) (h : Exn → Exec A) (t : List Call) → run w (catch m h) t ≡ rescue h (run w m t)
  unfolding run
  run-catch (done (ok a)) h t = refl
  run-catch (done (err e)) h t = refl
  run-catch (ask c k) h t = run-catch (k (w.reply t c)) h _

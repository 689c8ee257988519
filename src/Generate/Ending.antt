-- ===== src/Generate/Ending.antt =====
-- What holds where a job of the background task goes on, and where it ends.
use study_helper_backend.Prelude.{Bool, true, false, ◌≡◌, refl, Option, none, some}
use study_helper_backend.Text.{Text}
use study_helper_backend.Outcome.{Failure, Result, ok, err}
use study_helper_backend.Generate.Job.{World, Job, End, done, stopped, died, continue, ◌>>=◌}
use study_helper_backend.Generate.Finish.Laws.{Has, Finished, fail-Finished}
use study_helper_backend.Generate.Stages.{give_up, catching}

-- `Q` holds of the value and the state where the job goes on, and `S` of the state where it stops.
-- Where an exception leaves it, nothing is said.
abbrev pub Ends : {A : Type 0} → (A → World → Type 0) → (World → Type 0) → World × End A → Type 0
Ends Q S (w, done a) = Q a w
Ends Q S (w, stopped) = S w
Ends Q S (w, died e) = Unit

pub Ends-continue :
    {A B : Type 0} (Q : A → World → Type 0) (Q' : B → World → Type 0) (S : World → Type 0)
    → (f : A → Job B) (r : World × End A) → Ends Q S r
    → ((a : A) (w : World) → Q a w → Ends Q' S (f a w))
    → Ends Q' S (continue f r)
Ends-continue Q Q' S f (w, done a) q h = h a w q
Ends-continue Q Q' S f (w, stopped) q h = q
Ends-continue Q Q' S f (w, died e) q h = tt

pub then :
    {A B : Type 0} (Q : A → World → Type 0) (Q' : B → World → Type 0) (S : World → Type 0)
    → (m : Job A) (f : A → Job B) (w : World) → Ends Q S (m w)
    → ((a : A) (w : World) → Q a w → Ends Q' S (f a w))
    → Ends Q' S ((m >>= f) w)
unfolding ◌>>=◌
then Q Q' S m f w q h = Ends-continue Q Q' S f (m w) q h

give_up-Ends :
    {A : Type 0} (Q : A → World → Type 0) (user : Option Text) (id : Text) (e : Failure)
    (m : Option Text)
    → (w : World) → Has id w
    → Ends Q (Finished id) (give_up user id e m w)
give_up-Ends Q user id e (some message) w h = fail-Finished user id message w h
give_up-Ends Q user id e none w h = tt

-- A result that is handed on goes on with its value; a failure ends in a failed session or leaves.
pub catching-Ends :
    {A : Type 0} (Q : A → World → Type 0) (user : Option Text) (id : Text)
    → (message : Failure → Option Text) (a : Result A) (w : World) → Has id w
    → ((x : A) → a ≡ ok x → Q x w)
    → Ends Q (Finished id) (catching user id message a w)
unfolding catching
catching-Ends Q user id message (ok x) w h q = q x refl
catching-Ends Q user id message (err e) w h q = give_up-Ends Q user id e (message e) w h

abbrev pub survived : {A : Type 0} → End A → Bool
survived (done a) = true
survived stopped = true
survived (died e) = false

pub Ends-survived :
    {A : Type 0} (Q : A → World → Type 0) (S : World → Type 0) (r : World × End A)
    → Ends Q S r
    → ((a : A) (w : World) → Q a w → S w)
    → survived r.1 ≡ true
    → S r.0
Ends-survived Q S (w, done a) h q s = q a w h
Ends-survived Q S (w, stopped) h q s = h
Ends-survived Q S (w, died e) h q s = absurd (cc s)

pub Ends-done :
    {A : Type 0} (Q : A → World → Type 0) (S : World → Type 0) (r : World × End A) (a : A)
    → Ends Q S r
    → r.1 ≡ done a
    → Q a r.0
Ends-done Q S (w, done b) a h s = let e : b ≡ a = cc s in rw (← e) h
Ends-done Q S (w, stopped) a h s = absurd (cc s)
Ends-done Q S (w, died e) a h s = absurd (cc s)

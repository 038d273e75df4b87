-- ===== src/Pubsub/Setup/AutoPoll.antt =====
-- The polling thread after any use of setAutoPoll.
use ekg.Prelude.{◌≡◌, refl, Bool, false, List, [], ◌∷◌, if◌then◌else◌}
use ekg.Common.Outcome.{ok, throws, std_error}
use ekg.Pubsub.Setup.{PollThread, constructed, set_auto_poll, deinit}

abbrev pub set_all : List Bool → PollThread → PollThread
set_all [] p = p
set_all (b ∷ bs) p = set_all bs (set_auto_poll b p)

-- The last call, if there is one.
abbrev pub last_call : Bool → List Bool → Bool
last_call before [] = before
last_call before (b ∷ bs) = last_call b bs

set_all-last_call :
    (bs : List Bool) (p : PollThread)
    → set_all bs p ≡ record p { auto_poll = last_call p.auto_poll bs }
unfolding set_auto_poll
set_all-last_call [] p = refl
set_all-last_call (b ∷ bs) p = set_all-last_call bs (set_auto_poll b p)

-- Whatever calls of `setAutoPoll` a publisher gets, its polling thread never runs; and the
-- destructor's `deinit` throws exactly when the last call switched the polling on.
pub deinit-last_call :
    (bs : List Bool)
    → ((set_all bs constructed).is_joinable ≡ false)
      × (deinit (set_all bs constructed) ≡ (
          if last_call false bs
          then throws (std_error "Invalid argument")
          else ok (set_all bs constructed)))
unfolding deinit constructed
deinit-last_call bs = rw (set_all-last_call bs constructed) (refl, refl)

-- ===== src/Frontend/Update/Ended.antt =====
-- Which states are the end of a chroot's task, and in which a task runs, without the lists of
-- frontend/coprs_frontend/coprs/logic/builds_logic.py and views/backend_ns/backend_general.py.
use copr.Base.{◌≡◌, refl, Option, none, some, Bool, true, false}
use copr.Base.Dict.{contains}
use copr.Frontend.Status.{
  value, Status, status_eq, failed, succeeded, canceled, running, pending, skipped, starting,
  importing, forked, waiting, unknown,
}
use copr.Frontend.Update.{is_terminal}

unfoldable pub is_ended : Option Status → Bool
is_ended none = false
is_ended (some failed) = true
is_ended (some succeeded) = true
is_ended (some canceled) = true
is_ended (some _) = false

unfoldable pub has_begun : Option Status → Bool
has_begun none = false
has_begun (some starting) = true
has_begun (some running) = true
has_begun (some _) = false

pub is_terminal-is_ended : (o : Option Status) → is_terminal o ≡ is_ended o
unfolding is_terminal is_ended contains value
is_terminal-is_ended none = refl
is_terminal-is_ended (some failed) = refl
is_terminal-is_ended (some succeeded) = refl
is_terminal-is_ended (some canceled) = refl
is_terminal-is_ended (some running) = refl
is_terminal-is_ended (some pending) = refl
is_terminal-is_ended (some skipped) = refl
is_terminal-is_ended (some starting) = refl
is_terminal-is_ended (some importing) = refl
is_terminal-is_ended (some forked) = refl
is_terminal-is_ended (some waiting) = refl
is_terminal-is_ended (some unknown) = refl

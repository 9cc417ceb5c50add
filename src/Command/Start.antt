-- ===== src/Command/Start.antt =====
-- main.go: the daemon that `start` runs in the background.
use tunnelmanager.Prelude.{
  ◌∷◌, ◌≡◌, Bool, Bytes, List, codes, false, if◌then◌else◌, refl, some, text_eq, true,
}
use tunnelmanager.Command.{wants_background, forks, runs_daemon, cmd_start}
use tunnelmanager.Manager.Config.{Config}

-- The arguments of the process that `start` makes.
unfoldable pub child_args : Bytes → List Bytes → List Bytes
child_args prog rest = prog ∷ codes "start" ∷ codes "--foreground" ∷ rest

foreground_skipped :
    (rest : List Bytes) → wants_background (codes "--foreground" ∷ rest) ≡ wants_background rest
unfolding wants_background text_eq
foreground_skipped rest = refl

by_background :
    (cfg : Config) (prog a : Bytes) (rest : List Bytes) (b : Bool)
    → wants_background (a ∷ rest) ≡ b
    → cmd_start false (some cfg) (prog ∷ codes "start" ∷ a ∷ rest)
      ≡ (if b then forks (child_args prog rest) else runs_daemon cfg)
unfolding cmd_start child_args
by_background cfg prog a rest b e = rw (e) refl

-- Where no daemon runs and both processes can load their configuration, `start` with arguments
-- that ask for the background starts a second process. That one runs the daemon, unless an
-- argument behind the first asks for the background too: then it starts a process with its own
-- arguments once more.
pub start_child :
    (cfg cfg' : Config) (prog a : Bytes) (rest : List Bytes)
    → wants_background (a ∷ rest) ≡ true
    → (cmd_start false (some cfg) (prog ∷ codes "start" ∷ a ∷ rest) ≡ forks (child_args prog rest))
      × (cmd_start false (some cfg') (child_args prog rest)
          ≡ (if wants_background rest then forks (child_args prog rest) else runs_daemon cfg'))
unfolding child_args
start_child cfg cfg' prog a rest e = (
  by_background cfg prog a rest true e,
  by_background cfg' prog (codes "--foreground") rest (wants_background rest)
      (foreground_skipped rest),
)

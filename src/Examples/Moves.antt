-- ===== src/Examples/Moves.antt =====
-- A batch of moves on a small remote.
use rclone_sync_hub_go_backe.Prelude.{
  codes, Text, text_eq, List, [], ◌∷◌, Bool, true, false, some, if◌then◌else◌,
}
use rclone_sync_hub_go_backe.Database.InMemory.{in_memory}
use rclone_sync_hub_go_backe.RouteService.{Stat, absent, present, Remote}
use rclone_sync_hub_go_backe.RouteService.MoveFiles.{move_files}
use rclone_sync_hub_go_backe.RouteService.Accounting.{Accounted, move_files-Accounted}
use rclone_sync_hub_go_backe.Examples.{store}
use rclone_sync_hub_go_backe.Examples.Names.{box_only}

-- The objects of a remote, each with whether it is a folder.
abbrev Objects : Type 0
Objects = List (Text × Bool)

abbrev find_object : Text → Objects → Stat
find_object p [] = absent
find_object p ((q, d) ∷ os) = let rest = find_object p os in if text_eq q p then present d else rest

abbrev without : Text → Objects → Objects
without p [] = []
without p ((q, d) ∷ os) = let rest = without p os in if text_eq q p then rest else (q, d) ∷ rest

abbrev remote : Remote
remote = record {
  State = Objects;
  stat = λ name p os. (find_object p os, os);
  move = λ name p q os. (true, (q, false) ∷ without p os);
}

abbrev objects : Objects
objects =
    (codes "up/to", true)
    ∷ (codes "up/a", false)
    ∷ (codes "up/b", false)
    ∷ (codes "up/to/b", false)
    ∷ []

abbrev to_move : List Text
to_move = codes "a" ∷ codes "/b/" ∷ codes "to/b" ∷ codes "c" ∷ []

move_files-Accounted_example :
    Accounted remote in_memory 4 store
      (move_files remote in_memory (some box_only) 200 5 to_move (codes "to") objects store)
move_files-Accounted_example =
    move_files-Accounted remote in_memory (some box_only) 200 5 to_move (codes "to") objects store

-- ===== src/LiveList/Spec.antt =====
-- What the live list promises: a map from users to the addresses of their streams, in which a stream
-- that goes on keeps its address.
use pick_up_the_light_server.Prelude.{
  ◌≡◌, refl, fun_ext, Option, none, some, List, [], ◌∷◌, ◌∙◌, ap, arith, if◌then◌else◌,
}
use pick_up_the_light_server.Outcome.{ok, pure, ◌>>◌}
use pick_up_the_light_server.Text.{Bytes}
use pick_up_the_light_server.Table.{Table, ◌==◌, bytes_key, lookup, insert, erase}
use pick_up_the_light_server.Table.Laws.{
  lookup-insert, lookup-erase, NodupKeys, insert-NodupKeys, erase-NodupKeys,
}
use pick_up_the_light_server.Platform.{Platform, World, Run}
use pick_up_the_light_server.LiveList.{add, remove}

pub data Call : Type 0 where
  begins : Bytes → Bytes → Call
  ends : Bytes → Call

-- Who is live, and where.
abbrev pub Live : Type 0
Live = Bytes → Option Bytes

abbrev pub kept : Option Bytes → Bytes → Option Bytes
kept none url = some url
kept (some old) url = some old

abbrev pub meaning : Call → Live → Live
meaning (begins id url) live j = if id == j then kept (live id) url else live j
meaning (ends id) live j = if id == j then none else live j

abbrev pub meanings : List Call → Live → Live
meanings [] live = live
meanings (c ∷ cs) live = meanings cs (meaning c live)

abbrev pub view : Table Bytes Bytes → Live
view m id = lookup id m

module _ (P : Platform) where
  abbrev pub perform : Call → Run P Unit
  perform (begins id url) = add P id url
  perform (ends id) = remove P id

  abbrev pub perform_all : List Call → Run P Unit
  perform_all [] = pure tt
  perform_all (c ∷ cs) = perform c >> perform_all cs

  -- However streams begin and end, the calls return and leave a table that is the promised map, with
  -- one entry for each user that is live; nothing else of the server changes.
  pub perform_all-meanings :
      (cs : List Call) (w : World P)
      → NodupKeys w.live_list
      → (m : Table Bytes Bytes) × (perform_all cs w ≡ (ok tt, record w { live_list = m }))
        × (view m ≡ meanings cs (view w.live_list))
        × NodupKeys m
  unfolding add remove
  perform_all-meanings [] w u = (w.live_list, refl, refl, u)
  perform_all-meanings (begins id url ∷ cs) w u =
      let (m, ran, same, u') =
        perform_all-meanings cs (record w { live_list = insert id url w.live_list })
          (insert-NodupKeys id url w.live_list u) in
      (
        m,
        ran,
        same ∙ ap (meanings cs) (fun_ext λ j. ground (arith, lookup-insert id j url w.live_list)),
        u',
      )
  perform_all-meanings (ends id ∷ cs) w u =
      let (m, ran, same, u') =
        perform_all-meanings cs (record w { live_list = erase id w.live_list })
          (erase-NodupKeys id w.live_list u) in
      (
        m,
        ran,
        same ∙ ap (meanings cs) (fun_ext λ j. ground (arith, lookup-erase id j w.live_list)),
        u',
      )

-- ===== src/LiveList/Laws.antt =====
-- The live list as a client sees it.
use pick_up_the_light_server.Prelude.{◌≡◌, none, some, arith, if◌then◌else◌}
use pick_up_the_light_server.Text.{Bytes}
use pick_up_the_light_server.Table.{Table, ◌==◌, bytes_key, lookup, insert, erase}
use pick_up_the_light_server.Table.Laws.{lookup-insert, lookup-erase}
use pick_up_the_light_server.LiveList.{add_live, remove_live}

-- A stream that ends is off the list whatever the list was when it began, a stream that begins after the end of
-- the last one is listed with its own address, and neither call changes what is listed for others.
pub add_live-remove_live :
    (id j url : Bytes) (m : Table Bytes Bytes)
    → (lookup j (remove_live id (add_live id url m)) ≡ (if id == j then none else lookup j m))
      × (lookup j (add_live id url (remove_live id m)) ≡ (if id == j then some url else lookup j m))
add_live-remove_live id j url m =
    let both = bytes_key.same_iff id j in
    let self = bytes_key.same_iff id id in
    (
      ground (arith, lookup-erase id j (insert id url m), lookup-insert id j url m, both),
      ground (
        arith,
        lookup-insert id j url (erase id m),
        lookup-erase id j m,
        lookup-erase id id m,
        both,
        self,
      ),
    )

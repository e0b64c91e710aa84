-- ===== src/LiveList.antt =====
-- livelistmonitor.h and livelistmonitor.cpp: who is live, and where to watch. The mutex makes each
-- method one step.
pub mod Laws
pub mod Spec
mod Tests
use pick_up_the_light_server.Outcome.{Exec, modify, gets}
use pick_up_the_light_server.Text.{Bytes, bytes}
use pick_up_the_light_server.Table.{Table, bytes_key, insert, erase}
use pick_up_the_light_server.Platform.{Platform, World, Run}

abbrev pub add_live : Bytes → Bytes → Table Bytes Bytes → Table Bytes Bytes
add_live id url m = insert id url m

abbrev pub remove_live : Bytes → Table Bytes Bytes → Table Bytes Bytes
remove_live id m = erase id m

-- The methods on the shared object.
module _ (P : Platform) where
  unfoldable pub add : Bytes → Bytes → Run P Unit
  add id url = modify (λ w. record w { live_list = add_live id url w.live_list })

  unfoldable pub remove : Bytes → Run P Unit
  remove id = modify (λ w. record w { live_list = remove_live id w.live_list })

  unfoldable pub get_live_list : Run P (Table Bytes Bytes)
  get_live_list = gets (λ w. w.live_list)

-- ===== src/Epoll.antt =====
-- epolloperator.h and epolloperator.cpp: the set of watched descriptors. The kernel refuses to add
-- a descriptor twice or to delete one that is not there; the code only logs that.
pub mod Counts
use pick_up_the_light_server.Prelude.{ℕ, Bool, false, ◌||◌, ◌==◌, List, [], ◌∷◌, if◌then◌else◌}
use pick_up_the_light_server.Outcome.{modify}
use pick_up_the_light_server.Platform.{Platform, Run}

abbrev pub is_watched : ℕ → List ℕ → Bool
is_watched fd [] = false
is_watched fd (x ∷ xs) = x == fd || is_watched fd xs

abbrev pub unwatch : ℕ → List ℕ → List ℕ
unwatch fd [] = []
unwatch fd (x ∷ xs) = if x == fd then unwatch fd xs else x ∷ unwatch fd xs

abbrev pub watch : ℕ → List ℕ → List ℕ
watch fd xs = if is_watched fd xs then xs else fd ∷ xs

module _ (P : Platform) where
  unfoldable pub add_fd : ℕ → Run P Unit
  add_fd fd = modify (λ w. record w { watched = watch fd w.watched })

  unfoldable pub delete_fd : ℕ → Run P Unit
  delete_fd fd = modify (λ w. record w { watched = unwatch fd w.watched })

-- ===== src/Acceptor/Tests.antt =====
-- An acceptor without descriptors left.
use toy_basket.Prelude.{[], ◌∷◌, true, some, refl}
use toy_basket.Acceptor.{
  Acceptor, IsBalanced, emfile, handle_read, handle_read-IsBalanced, make_room,
}

abbrev full : Acceptor
full = record {
  listening = true;
  reading = true;
  has_callback = true;
  idle_fd = some 5;
  opened = 5 ∷ 6 ∷ [];
  closed = [];
  handed = 6 ∷ [];
}

abbrev roomy : Acceptor
roomy = record full { opened = 5 ∷ 6 ∷ 5 ∷ 5 ∷ []; closed = 5 ∷ 5 ∷ [] }

handle_read-IsBalanced_example : IsBalanced roomy
unfolding handle_read make_room
handle_read-IsBalanced_example =
    handle_read-IsBalanced full roomy emfile (some 5) (some 5) refl refl

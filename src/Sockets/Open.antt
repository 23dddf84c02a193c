-- ===== src/Sockets/Open.antt =====
-- libs/Networking/socket_io: the descriptors that create_socket opens.
use cmake_template.Prelude.{
  none, some, true, false, ◌∷◌, Bool, Option, ℕ, List, ◌≡◌, ◌⊎◌, inl, inr, arith, refl,
}
use cmake_template.Core.{failure, success}
use cmake_template.Sockets.{create_socket}

-- create_socket either fails, with the same descriptors open as before and the place for the result
-- as it was, or succeeds, with the descriptor that socket() returned as the only new one, stored.
pub create_socket_closed :
    (has_addr : Bool) (opened : Option ℕ) (option_set : Bool) (table : List ℕ) (old : ℕ)
    → (create_socket has_addr opened option_set table old ≡ (failure, (table, old)))
      ⊎ ((fd : ℕ) × (opened ≡ some fd)
          × (create_socket has_addr opened option_set table old ≡ (success, (fd ∷ table, fd))))
unfolding create_socket
create_socket_closed false opened option_set table old = inl refl
create_socket_closed true none option_set table old = inl refl
create_socket_closed true (some fd) true table old = inr (fd, refl, refl)
create_socket_closed true (some fd) false table old = inl (ground arith)

-- ===== src/Streams/Socket.antt =====
-- `SocketStream` of myhttp/socket_stream.cpp. A socket is a number; whether it is connected, and
-- what recv, send and close do, are parameters over a state of the sockets.
use http_practice.Prelude.{ℕ, Bool, false, Option, none, some, if◌then◌else◌}
use http_practice.Prelude.Text.{Bytes}

pub record SocketStream : Type 0 where
  pub socket : Option ℕ
  pub owner : Bool

module _ {ℓ} {S : Type ℓ} (connected : ℕ → S → Bool) (close_socket : ℕ → S → S)
    (recv : ℕ → ℕ → S → Option Bytes × S) (send : ℕ → Bytes → S → Option ℕ × S) where
  -- `m_socket && m_socket->isConnected()`.
  abbrev pub is_connected : SocketStream → S → Bool
  is_connected m s = elim m.socket [ none ↦ false | some k ↦ connected k s ]

  abbrev pub close : SocketStream → S → S
  close m s = elim m.socket [ none ↦ s | some k ↦ close_socket k s ]

  -- The destructor.
  abbrev pub destroy : SocketStream → S → S
  destroy m s = if m.owner then close m s else s

  -- `read` and `write` of a buffer; an error is `none`, which stands for -1.
  abbrev pub read_with : Option ℕ → ℕ → S → Option Bytes × S
  read_with none n s = (none, s)
  read_with (some k) n s = if connected k s then recv k n s else (none, s)

  unfoldable pub socket_read : SocketStream → ℕ → S → Option Bytes × S
  socket_read m n s = read_with m.socket n s

  abbrev pub write_with : Option ℕ → Bytes → S → Option ℕ × S
  write_with none bs s = (none, s)
  write_with (some k) bs s = if connected k s then send k bs s else (none, s)

  unfoldable pub socket_write : SocketStream → Bytes → S → Option ℕ × S
  socket_write m bs s = write_with m.socket bs s

-- ===== src/TtyLoopback.antt =====
-- openwrt/kernel/soft_uart/gpt/tty_loopback.c: a tty that gives back what is written to it.
pub mod Writes
pub mod Setup
mod Tests
use testings.Prelude.{ℕ, ◌+◌, ◌==◌, Bool, List, [], ◌∷◌, length, if◌then◌else◌}
use testings.Prelude.Int.{ℤ, pos}
use testings.Kernel.Errno.{eio}
use testings.Kernel.FlipBuffer.{FlipBuffer}

-- The settings of `struct loopback`.
pub record Settings : Type 0 where
  pub baud : ℕ
  pub cflag : ℕ

-- What lb_probe sets.
abbrev pub default_settings : Settings
default_settings = record { baud = 9600; cflag = 0 }

-- `baud` is what tty_get_baud_rate returns.
unfoldable pub lb_set_termios : ℕ → ℕ → Settings → Settings
lb_set_termios baud cflag s = record { baud = if baud == 0 then s.baud else baud; cflag = cflag }

abbrev pub lb_write_room : ℕ
lb_write_room = 4096

module _ (F : FlipBuffer) where
  open F use {Port, is_initialized, insert, push}

  -- The loop of lb_write.
  abbrev pub insert_all : List ℕ → Port → Port
  insert_all [] p = p
  insert_all (b ∷ bs) p = insert_all bs (insert p b).1

  -- What it returns, and the port; the counter that it adds the bytes to is left out.
  unfoldable pub lb_write : List ℕ → Port → ℤ × Port
  lb_write buf p =
      if is_initialized p then (pos (length buf), push (insert_all buf p)) else (eio, p)

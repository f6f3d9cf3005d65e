-- ===== src/GpioUart/Tests.antt =====
-- The UART at concrete configurations and frames.
use testings.Prelude.{◌+◌, ◌≡◌, refl, inl, true, false, [], ◌∷◌, arith}
use testings.Prelude.Int.{pos, negsuc}
use testings.GpioUart.State.{GuCfg, GpioUart}
use testings.GpioUart.Config.{Termios, IsConfigured}
use testings.GpioUart.Setup.{Answers}
use testings.GpioUart.Tx.{gu_tty_write}
use testings.GpioUart.Tx.Waveform.{frames, gu_tty_write_lem}
use testings.GpioUart.Rx.{rx_run, rx_timed}
use testings.GpioUart.Rx.Frame.{samples, received, drives, rx_run_lem}
use testings.GpioUart.Rx.Early.{wire, rx_timed_early}

-- 9600 baud, even parity, two stop bits, inverted.
abbrev inverted : GuCfg
inverted = record {
  baud = 9600;
  parity = 2;
  stopbits = 2;
  invert = true;
  tx_enable = true;
  rx_enable = true;
  bit_period = 104166;
}

abbrev plain : GuCfg
plain = record {
  baud = 1000;
  parity = 0;
  stopbits = 1;
  invert = false;
  tx_enable = true;
  rx_enable = true;
  bit_period = 1000000;
}

abbrev port : GuCfg → GpioUart
port c = record {
  cfg = c;
  st = record { tx_bytes = 0; rx_bytes = 5; framing_errors = 0; rx_errors = 0; overrun_errors = 0 };
  rx_busy = false;
  rx_byte = 255;
  rx_bitpos = pos 8;
  initialized = true;
  flip = 1 ∷ [];
}

plain-IsConfigured : IsConfigured plain
plain-IsConfigured = record { rated = omega arith; timed = refl; stops = inl refl }

abbrev retuned : GuCfg
retuned = record plain { baud = 115200; bit_period = 8680 }

abbrev wish : Termios
wish = record { baud_rate = 0; parenb = true; parodd = true; cstopb = true }

abbrev sent : GpioUart
sent = record (port inverted) {
  st = record { tx_bytes = 2; rx_bytes = 5; framing_errors = 0; rx_errors = 0; overrun_errors = 0 };
}

gu_tty_write_lem_example :
    gu_tty_write 2 (65 ∷ 66 ∷ []) (port inverted) ≡ (pos 2, frames inverted (65 ∷ 66 ∷ []), sent)
gu_tty_write_lem_example =
    gu_tty_write_lem (65 ∷ 66 ∷ []) (port inverted) (omega arith) (omega arith)

rx_run_lem_example :
    rx_run (drives inverted (samples 2 65 1 1)) (port inverted) ≡ received (port inverted) 65 1
rx_run_lem_example = rx_run_lem (port inverted) refl 65 1 1 refl (omega arith) (omega arith)

rx_timed_early_example :
    rx_timed ◌+◌ 10 (wire plain 200 1000000) 300000 (port plain) ≡ received (port plain) 144 1
rx_timed_early_example =
    rx_timed_early ◌+◌ (port plain) 200 300000 (λ s i h. refl) refl refl refl (omega arith)
      (omega arith)

-- The tty device is refused with -EBUSY.
abbrev no_device : Answers
no_device = record {
  kzalloc = true;
  tx_desc = true;
  rx_desc = true;
  direction_output = pos 0;
  direction_input = pos 0;
  alloc_driver = true;
  register_driver = pos 0;
  register_device = negsuc 15;
  proc_create = true;
  kobject_create = true;
  create_group = pos 0;
}

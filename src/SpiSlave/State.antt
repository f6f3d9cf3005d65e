-- ===== src/SpiSlave/State.antt =====
-- `struct spi_imx_statistic`, and the part of `struct spi_imx_data` that changes while packets come in.
use testings.Prelude.{ℕ, ◌+◌, ◌%◌, ◌^◌, Bool, List}
use testings.SpiSlave.Ring.{CircBuf}

-- `unsigned n; n++` and `unsigned long long n; n++`
abbrev pub incr32 : ℕ → ℕ
incr32 n = (n + 1) % 2 ^ 32

abbrev pub incr64 : ℕ → ℕ
incr64 n = (n + 1) % 2 ^ 64

pub record SpiImxStatistic : Type 0 where
  pub pkt_ok : ℕ
  pub pkt_lost : ℕ
  pub pkt_err : ℕ
  pub stream_err : ℕ
  pub overruns : ℕ
  pub max_ring_used : ℕ
  pub dwords : ℕ
  pub skip : ℕ
  pub last_message_jiffies : ℕ

abbrev pub no_stats : SpiImxStatistic
no_stats = record {
  pkt_ok = 0;
  pkt_lost = 0;
  pkt_err = 0;
  stream_err = 0;
  overruns = 0;
  max_ring_used = 0;
  dwords = 0;
  skip = 0;
  last_message_jiffies = 0;
}

-- `packets` has the dwords of each packet, and `rx_thrd` says whether the pointer is set.
pub record SpiImxData : Type 0 where
  pub rx_ring : CircBuf
  pub packets : ℕ → List ℕ
  pub stats : SpiImxStatistic
  pub rx_thrd : Bool

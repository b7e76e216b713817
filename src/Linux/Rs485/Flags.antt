-- ===== src/Linux/Rs485/Flags.antt =====
-- A configuration applied over what the driver reported.
use anyserial.Base.{ℕ, ◌≡◌, ◌∙◌, refl, Bool, true, false, arith}
use anyserial.Bits.{◌&◌, ◌¦◌, ◌&~◌}
use anyserial.Bits.Laws.{write, write_lem, and-write, clear-write, write-write_same}
use anyserial.Errors.{ok}
use anyserial.Config.{Rs485Config}
use anyserial.Linux.Rs485.{
  Rs485State, flags_of, from_config, with_flags_from, seconds_to_ms, owned_mask, ser_rs485_enabled,
  ser_rs485_rts_on_send, ser_rs485_rts_after_send, ser_rs485_rx_during_tx,
}

-- A Boolean as the bit of a mask.
abbrev pub bit_if : Bool → ℕ → ℕ
bit_if true m = m
bit_if false m = 0

-- What is left of the driver's state, and what the configuration put there.
pub record Applied (rounded : ℕ → ℕ) (s : Rs485State) (c : Rs485Config) (t : Rs485State)
    : Type 0 where
  pub enabled : t.flags & ser_rs485_enabled ≡ bit_if c.enabled ser_rs485_enabled
  pub on_send : t.flags & ser_rs485_rts_on_send ≡ bit_if c.rts_on_send ser_rs485_rts_on_send
  pub after_send :
      t.flags & ser_rs485_rts_after_send ≡ bit_if c.rts_after_send ser_rs485_rts_after_send
  pub during_tx : t.flags & ser_rs485_rx_during_tx ≡ bit_if c.rx_during_tx ser_rs485_rx_during_tx
  pub others : t.flags &~ owned_mask ≡ s.flags &~ owned_mask
  pub before : seconds_to_ms rounded c.delay_before_send ≡ ok t.delay_rts_before_send
  pub after : seconds_to_ms rounded c.delay_after_send ≡ ok t.delay_rts_after_send
  pub recv : t.addr_recv ≡ s.addr_recv
  pub dest : t.addr_dest ≡ s.addr_dest

flags_of-owned : (c : Rs485Config) → flags_of c & owned_mask ≡ flags_of c
unfolding flags_of
flags_of-owned c = ground arith

-- Each flag that a configuration owns reads as it says.
record Owned (c : Rs485Config) (flags : ℕ) : Type 0 where
  pub enabled : flags & ser_rs485_enabled ≡ bit_if c.enabled ser_rs485_enabled
  pub on_send : flags & ser_rs485_rts_on_send ≡ bit_if c.rts_on_send ser_rs485_rts_on_send
  pub after_send :
      flags & ser_rs485_rts_after_send ≡ bit_if c.rts_after_send ser_rs485_rts_after_send
  pub during_tx : flags & ser_rs485_rx_during_tx ≡ bit_if c.rx_during_tx ser_rs485_rx_during_tx

flags_of-Owned : (c : Rs485Config) → Owned c (flags_of c)
unfolding flags_of
flags_of-Owned c = record {
  enabled = ground arith;
  on_send = ground arith;
  after_send = ground arith;
  during_tx = ground arith;
}

-- The merged flag word.
merged : Rs485State → Rs485Config → ℕ
merged s c = (s.flags &~ owned_mask) ¦ (flags_of c & owned_mask)

merged-write :
    (s : Rs485State) (c : Rs485Config) → merged s c ≡ write owned_mask (flags_of c) s.flags
unfolding merged
merged-write s c = rw (flags_of-owned c) (write_lem owned_mask (flags_of c) s.flags)

merged-Owned : (s : Rs485State) (c : Rs485Config) → Owned c (merged s c)
merged-Owned s c =
    let o = flags_of-Owned c in
    let read = and-write owned_mask (flags_of c) s.flags in
    rw (merged-write s c) (record {
      enabled = read ser_rs485_enabled refl ∙ o.enabled;
      on_send = read ser_rs485_rts_on_send refl ∙ o.on_send;
      after_send = read ser_rs485_rts_after_send refl ∙ o.after_send;
      during_tx = read ser_rs485_rx_during_tx refl ∙ o.during_tx;
    })

merged-others :
    (s : Rs485State) (c : Rs485Config) → merged s c &~ owned_mask ≡ s.flags &~ owned_mask
merged-others s c =
    rw
      (
        merged-write s c,
        clear-write owned_mask (write owned_mask (flags_of c) s.flags),
        clear-write owned_mask s.flags,
      )
      (write-write_same owned_mask (flags_of c) s.flags 0 (flags_of-owned c))

applied :
    (rounded : ℕ → ℕ) (s : Rs485State) (c : Rs485Config) (t : Rs485State)
    → with_flags_from rounded s c ≡ ok t
    → (t.flags ≡ merged s c)
      × (seconds_to_ms rounded c.delay_before_send ≡ ok t.delay_rts_before_send)
      × (seconds_to_ms rounded c.delay_after_send ≡ ok t.delay_rts_after_send)
      × (t.addr_recv ≡ s.addr_recv)
      × (t.addr_dest ≡ s.addr_dest)
unfolding with_flags_from from_config merged
applied rounded s c t h = ground arith

-- A configuration that encodes is merged into the driver's state: ENABLED, RTS_ON_SEND,
-- RTS_AFTER_SEND and RX_DURING_TX read as the configuration says, every other flag bit
-- (TERMINATE_BUS among them) and both addresses are the driver's, and the delays are the
-- configuration's in milliseconds, however Python's floats round them.
pub with_flags_from-Applied :
    (rounded : ℕ → ℕ) (s : Rs485State) (c : Rs485Config) (t : Rs485State)
    → with_flags_from rounded s c ≡ ok t
    → Applied rounded s c t
with_flags_from-Applied rounded s c t h =
    let (flags, before, after, recv, dest) = applied rounded s c t h in
    let o : Owned c t.flags = rw flags (merged-Owned s c) in
    let others : t.flags &~ owned_mask ≡ s.flags &~ owned_mask = rw flags (merged-others s c) in
    record {
      enabled = o.enabled;
      on_send = o.on_send;
      after_send = o.after_send;
      during_tx = o.during_tx;
      others = others;
      before = before;
      after = after;
      recv = recv;
      dest = dest;
    }

-- ===== src/Serve/Accept.antt =====
-- acceptFunc against a description of the headers it takes.
use contractdb.Base.{ℕ, ◌+◌, ◌*◌, ◌/◌, ◌%◌, ◌≤◌, ◌<◌, ◌==◌, ◌≡◌, ◌≢◌, ◌↔◌, ◌⊎◌, inl, inr, ap, arith}
use contractdb.Dns.Opcode
use contractdb.Serve.{
  WireHeader, accept, ignore, reject_not_implemented, is_response, opcode_of, accept_func,
}

-- The flag bits of a header by the fields of RFC 1035: the bit QR, the four bits of the opcode, and the
-- eleven bits behind them.
pub record HasFlags (dh : WireHeader) (qr opcode rest : ℕ) : Type 0 where
  pub qr_bit : qr < 2
  pub opcode_bits : opcode < 16
  pub rest_bits : rest < 2048
  pub flags : dh.bits ≡ qr * 32768 + opcode * 2048 + rest

-- A request that the server is willing to read: one question, at most two additional records, and
-- for queries and notifications at most one authority record, for notifications at most one answer.
abbrev pub IsAcceptable : WireHeader → ℕ → ℕ → Type 0
IsAcceptable dh qr opcode =
    (qr ≡ 0)
    × ((dh.qdcount ≡ 1)
        × ((dh.arcount ≤ 2)
            × ((opcode ≡ Opcode.update)
                ⊎ (((opcode ≡ Opcode.query) ⊎ ((opcode ≡ Opcode.notify) × (dh.ancount ≤ 1)))
                    × (dh.nscount ≤ 1)))))

module _ (dh : WireHeader) (qr opcode rest : ℕ) (f : HasFlags dh qr opcode rest) where
  is_response_lem : is_response dh ≡ (qr == 1)
  is_response_lem =
      let e : dh.bits / 32768 % 2 ≡ qr =
        omega (arith, f.flags, f.qr_bit, f.opcode_bits, f.rest_bits) in
      ap (λ b. b == 1) e

  opcode_of_lem : opcode_of dh ≡ opcode
  opcode_of_lem = omega (arith, f.flags, f.qr_bit, f.opcode_bits, f.rest_bits)

  accept_of : IsAcceptable dh qr opcode → accept_func dh ≡ accept
  unfolding accept_func
  accept_of (request, (one, (few, inl u))) =
      rw (is_response_lem, opcode_of_lem, accept_func) (ground arith)
  accept_of (request, (one, (few, inr (inl q, auth)))) =
      rw (is_response_lem, opcode_of_lem, accept_func) (ground arith)
  accept_of (request, (one, (few, inr (inr (n, ans), auth)))) =
      rw (is_response_lem, opcode_of_lem, accept_func) (ground arith)

  -- For a header with the flag bits QR, opcode and rest: a message is accepted exactly if it is
  -- acceptable; it is ignored exactly if it is a response; and it is rejected as not implemented exactly
  -- if it is a request of another opcode than those of queries, notifications and updates.
  pub accept_func_iff :
      ((accept_func dh ≡ accept) ↔ IsAcceptable dh qr opcode)
      × ((accept_func dh ≡ ignore) ↔ (qr ≡ 1))
      × ((accept_func dh ≡ reject_not_implemented) ↔ (
          (qr ≡ 0)
          × ((opcode ≢ Opcode.query) × (opcode ≢ Opcode.notify) × (opcode ≢ Opcode.update))))
  unfolding accept_func
  accept_func_iff = (
    ((λ h. ground (arith, is_response_lem, opcode_of_lem, f.qr_bit)), accept_of),
    (
      (λ h. ground (arith, is_response_lem, opcode_of_lem)),
      (λ h. ground (arith, is_response_lem, opcode_of_lem)),
    ),
    (
      (λ h. ground (arith, is_response_lem, opcode_of_lem, f.qr_bit)),
      (λ h. ground (arith, is_response_lem, opcode_of_lem)),
    ),
  )

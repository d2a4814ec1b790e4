-- ===== src/Rat/Rename.antt =====
-- The checkpoints of the alias table of src/RAT/RAT.cpp, from issue to squash.
use rv32im_simulator.Prelude.{
  ℕ, ◌<◌, true, false, ◌&&◌, ◌==◌, Bool-cases, guarded-some, if◌then◌else◌, none, some, List, [],
  ◌≡◌, ◌≢◌, refl, sym, ap, ◌∙◌, inl, inr, length, set, get_or-set_self, get_or-set_ne,
}
use rv32im_simulator.Types.{SquashInfo, invalid_phy}
use rv32im_simulator.Packet.{IssuePacket}
use rv32im_simulator.Rat.{Rat, set_rat_prf, restore_rat_prf, snapshot_at, rename, tick}

abbrev ckpt_of : IssuePacket → ℕ
ckpt_of packet = packet.rob_entry.ckpt_id

-- The mapping after an instruction, and the table that has also saved it.
abbrev mapping_after : IssuePacket → Rat → List ℕ
mapping_after packet old =
    if packet.alloc_dest then set old.rat_prf packet.rob_entry.dest packet.phy else old.rat_prf

abbrev pub issued_state : IssuePacket → Rat → Rat
issued_state packet old = record {
  rat_prf = mapping_after packet old;
  rat_ckpt = set old.rat_ckpt (ckpt_of packet) (mapping_after packet old);
}

rename_cases :
    (packet : IssuePacket) (squash : SquashInfo) (old : Rat)
    → packet.valid ≡ true
    → squash.need_squash ≡ false
    → tick packet squash old ≡ (
        if packet.alloc_dest && (packet.phy == invalid_phy)
        then none
        else some (issued_state packet old))
unfolding tick rename set_rat_prf
rename_cases packet squash old v c = elim (Bool-cases packet.alloc_dest) [
  | inl a ↦ elim (Bool-cases (packet.phy == invalid_phy)) [
    | inl z ↦ rw (v, c, a, z) refl
    | inr z ↦ rw (v, c, a, z) refl
  ]
  | inr a ↦ rw (v, c, a) refl
]

issued-tick :
    (packet : IssuePacket) (squash : SquashInfo) (old next : Rat)
    → packet.valid ≡ true
    → squash.need_squash ≡ false
    → tick packet squash old ≡ some next
    → next ≡ issued_state packet old
issued-tick packet squash old next v c e =
    guarded-some (packet.alloc_dest && (packet.phy == invalid_phy)) (issued_state packet old) next
      (sym (rename_cases packet squash old v c) ∙ e)

-- An issued instruction leaves in its checkpoint the mapping that holds after it.
snapshot-tick :
    (packet : IssuePacket) (old : Rat)
    → ckpt_of packet < length old.rat_ckpt
    → snapshot_at (issued_state packet old) (ckpt_of packet) ≡ (issued_state packet old).rat_prf
snapshot-tick packet old room = get_or-set_self old.rat_ckpt (ckpt_of packet) _ [] room

-- Any number of instructions issued one after the other, none of which takes the checkpoint.
pub data Issues (ckpt : ℕ) : Rat → Rat → Type 0 where
  done : {r : Rat} → Issues ckpt r r
  issue :
      {old next last : Rat} (packet : IssuePacket) (squash : SquashInfo)
      → packet.valid ≡ true
      → squash.need_squash ≡ false
      → ckpt_of packet ≢ ckpt
      → tick packet squash old ≡ some next
      → Issues ckpt next last
      → Issues ckpt old last

snapshot-Issues :
    {ckpt : ℕ} {old last : Rat}
    → Issues ckpt old last
    → snapshot_at last ckpt ≡ snapshot_at old ckpt
snapshot-Issues done = refl
snapshot-Issues {ckpt} (issue {old} {next} packet squash v c apart e rest) =
    snapshot-Issues rest
    ∙ ap (λ r. snapshot_at r ckpt) (issued-tick packet squash old next v c e)
    ∙ get_or-set_ne old.rat_ckpt (ckpt_of packet) ckpt _ [] apart

-- After an instruction was issued under a checkpoint within the table, and any number of others
-- under other checkpoints, a squash to its checkpoint in a cycle that issues nothing succeeds, and
-- the mapping is the one that held right after the instruction.
pub squash_restores :
    (packet idle : IssuePacket) (calm squash : SquashInfo) (old issued last : Rat)
    → packet.valid ≡ true
    → calm.need_squash ≡ false
    → ckpt_of packet < length old.rat_ckpt
    → tick packet calm old ≡ some issued
    → Issues (ckpt_of packet) issued last
    → idle.valid ≡ false
    → squash.need_squash ≡ true
    → squash.ckpt_id ≡ ckpt_of packet
    → tick idle squash last ≡ some (record last { rat_prf = issued.rat_prf })
unfolding tick restore_rat_prf
squash_restores packet idle calm squash old issued last v c room e run i q at =
    let made = issued-tick packet calm old issued v c e in
    let saved : snapshot_at issued (ckpt_of packet) ≡ issued.rat_prf =
      rw made (snapshot-tick packet old room) in
    rw (i, q, at, snapshot-Issues run, saved) refl

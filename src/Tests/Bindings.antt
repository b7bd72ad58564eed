-- ===== src/Tests/Bindings.antt =====
-- The calls of foreign languages at a concrete input.
use midnight_did_rs.Common.{◌≡◌, refl, [], length, codes, replicate, none, ok}
use midnight_did_rs.Api.Resolution.State.{Crates}
use midnight_did_rs.Ffi.Calls.{new_handle}
use midnight_did_rs.Ffi.Calls.Session.{Kept, start, call, serve, creation, rotation, Session-Kept}
use midnight_did_rs.Runtime.Call
use midnight_did_rs.Ffi.Errors.{decode_hex_32}
use midnight_did_rs.Ffi.Calls
use midnight_did_rs.Ffi.Calls.Replacing.{Replaces, replacement-Replaces}
use midnight_did_rs.Tests.Calls.{codec-IsJsonCodec}
use midnight_did_rs.Tests.Base64.{base64}
use midnight_did_rs.Tests.Documents.{no_urls}
use midnight_did_rs.Tests.Keys.{ledger}
use midnight_did_rs.Tests.Ledgers.{externals, same}

-- A text reads as 32 bytes with its length.
abbrev crates : Crates
crates = record {
  engine = base64;
  urls = no_urls;
  decode_hex = λ s. ok (replicate 32 (length s));
  strings = λ s. none;
  value = λ s. none;
}

Session-Kept_example :
    Kept
      (serve externals crates same same
        (λ r. ok [])
        ledger.address
        (rotation (codes "did") (codes "03") (codes "0404"))
        (serve externals crates same same
          (λ r. ok [])
          ledger.address
          (creation (codes "01") (codes "02"))
          new_handle).1).1
Session-Kept_example =
    Session-Kept externals crates same same (λ r. ok []) ledger.address
      (call (call start (creation (codes "01") (codes "02")))
        (rotation (codes "did") (codes "03") (codes "0404")))

secret_read :
    decode_hex_32 crates.decode_hex (codes "03") (codes "new_secret_key_hex") ≡ ok (replicate 32 2)
unfolding decode_hex_32
secret_read = refl

public_read :
    decode_hex_32 crates.decode_hex (codes "0404") (codes "new_controller_public_key_hex")
    ≡ ok (replicate 32 4)
unfolding decode_hex_32
public_read = refl

replacement-Replaces_example :
    Replaces externals crates same same
      (λ r. ok [])
      ledger.address
      (Call.rotate_controller_key (replicate 32 4))
      (codes "did")
      (replicate 32 2)
      new_handle
      (Calls.rotate_controller_key externals crates same same
        (λ r. ok [])
        ledger.address
        (codes "did")
        (codes "03")
        (codes "0404")
        new_handle)
    × Replaces externals crates same same
        (λ r. ok [])
        ledger.address
        (Call.recover_controller_key (replicate 32 4))
        (codes "did")
        (replicate 32 2)
        new_handle
        (Calls.recover_controller_key externals crates same same
          (λ r. ok [])
          ledger.address
          (codes "did")
          (codes "03")
          (codes "0404")
          new_handle)
replacement-Replaces_example =
    replacement-Replaces externals crates same same (λ r. ok []) ledger.address codec-IsJsonCodec
      start (codes "did") (codes "03") (codes "0404") (replicate 32 2) (replicate 32 4) secret_read
      public_read

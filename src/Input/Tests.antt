-- ===== src/Input/Tests.antt =====
-- Runs and examples of the model of src/input.rs.
use ish.Prelude.{◌≡◌, refl, true, false, [], ◌∷◌, ◌++◌, arith}
use ish.Utf8.{encode}
use ish.Utf8.Decode.{is_scalar}
use ish.Input.{char, right, no_mods, with_mods, plain_key, InputReader, at, csi_to_key}
use ish.Input.Decode.{decode_key}
use ish.Input.Chars.{decode_key-encode}
use ish.Utf8.{bytes, len}
use ish.Input.Paste.{paste_event, returns, read_buffered}
use ish.Input.Pasted.{paste_start, paste_end, pasted, read_buffered-paste}
use ish.Input.Csi.{print_params, decode_key-print_params}

abbrev reader : InputReader
reader = record { input = []; in_paste = false; paste_buf = []; paste_limit_hit = false }

-- ESC `[1;5C` is the right arrow with control.
run_ctrl_right :
    decode_key (at reader (0x1B ∷ b'[' ∷ b'1' ∷ b';' ∷ b'5' ∷ b'C' ∷ b'x' ∷ []))
    ≡ (with_mods right (record no_mods { ctrl = true }), at reader (b'x' ∷ []))
unfolding decode_key
run_ctrl_right = refl

-- ESC `[200~` begins a paste.
run_paste :
    (decode_key (at reader (0x1B ∷ b'[' ∷ b'2' ∷ b'0' ∷ b'0' ∷ b'~' ∷ []))).1
    ≡ record reader { in_paste = true }
unfolding decode_key
run_paste = refl

-- The euro sign.
decode_key-encode_example :
    decode_key (at reader (encode 0x20AC ++ (b'x' ∷ [])))
    ≡ (plain_key (char 0x20AC), at reader (b'x' ∷ []))
unfolding is_scalar
decode_key-encode_example =
    decode_key-encode reader 0x20AC (b'x' ∷ []) refl (omega arith) (omega arith)

decode_key-print_params_example :
    decode_key
      (at reader (0x1B ∷ b'[' ∷ (print_params (1 ∷ []) ((5 ∷ []) ∷ []) ++ (b'A' ∷ b'x' ∷ []))))
    ≡ csi_to_key b'A' (1 ∷ 5 ∷ []) (at reader (b'x' ∷ []))
decode_key-print_params_example =
    decode_key-print_params reader (1 ∷ []) ((5 ∷ []) ∷ []) b'A' (b'x' ∷ [])
      (
        ((omega arith, tt), omega arith, omega arith),
        (((omega arith, tt), omega arith, omega arith), tt),
      )
      (omega arith) (omega arith)

-- `é` and a line's text in one paste.
read_buffered-paste_example :
    read_buffered 5
      (at reader (paste_start ++ (bytes (0xE9 ∷ b'l' ∷ b's' ∷ []) ++ (paste_end ++ b'x' ∷ []))))
    ≡ returns (paste_event (0xE9 ∷ b'l' ∷ b's' ∷ [])) (pasted reader [] (b'x' ∷ []))
unfolding is_scalar len ish.Utf8.len_utf8
read_buffered-paste_example =
    read_buffered-paste reader (0xE9 ∷ b'l' ∷ b's' ∷ []) (b'x' ∷ []) 0 refl
      (
        (refl, omega arith, omega arith),
        ((refl, omega arith, omega arith), ((refl, omega arith, omega arith), tt)),
      )
      (omega arith) (omega arith)

-- ===== src/Input/Darwin/Keys.antt =====
-- internal/input/input_darwin.go, keyCodes: from KeyboardEvent.code to the Carbon virtual keys.
use network_computer.Prelude.{ℕ, List, [], ◌∷◌}
use network_computer.Prelude.Bytes.{Bytes, codes}

unfoldable pub key_codes : List (Bytes × ℕ)
key_codes =
    (codes "KeyA", 0)
    ∷ (codes "KeyS", 1)
    ∷ (codes "KeyD", 2)
    ∷ (codes "KeyF", 3)
    ∷ (codes "KeyH", 4)
    ∷ (codes "KeyG", 5)
    ∷ (codes "KeyZ", 6)
    ∷ (codes "KeyX", 7)
    ∷ (codes "KeyC", 8)
    ∷ (codes "KeyV", 9)
    ∷ (codes "KeyB", 11)
    ∷ (codes "KeyQ", 12)
    ∷ (codes "KeyW", 13)
    ∷ (codes "KeyE", 14)
    ∷ (codes "KeyR", 15)
    ∷ (codes "KeyY", 16)
    ∷ (codes "KeyT", 17)
    ∷ (codes "Digit1", 18)
    ∷ (codes "Digit2", 19)
    ∷ (codes "Digit3", 20)
    ∷ (codes "Digit4", 21)
    ∷ (codes "Digit6", 22)
    ∷ (codes "Digit5", 23)
    ∷ (codes "Equal", 24)
    ∷ (codes "Digit9", 25)
    ∷ (codes "Digit7", 26)
    ∷ (codes "Minus", 27)
    ∷ (codes "Digit8", 28)
    ∷ (codes "Digit0", 29)
    ∷ (codes "BracketRight", 30)
    ∷ (codes "KeyO", 31)
    ∷ (codes "KeyU", 32)
    ∷ (codes "BracketLeft", 33)
    ∷ (codes "KeyI", 34)
    ∷ (codes "KeyP", 35)
    ∷ (codes "Enter", 36)
    ∷ (codes "KeyL", 37)
    ∷ (codes "KeyJ", 38)
    ∷ (codes "Quote", 39)
    ∷ (codes "KeyK", 40)
    ∷ (codes "Semicolon", 41)
    ∷ (codes "Backslash", 42)
    ∷ (codes "Comma", 43)
    ∷ (codes "Slash", 44)
    ∷ (codes "KeyN", 45)
    ∷ (codes "KeyM", 46)
    ∷ (codes "Period", 47)
    ∷ (codes "Tab", 48)
    ∷ (codes "Space", 49)
    ∷ (codes "Backquote", 50)
    ∷ (codes "Backspace", 51)
    ∷ (codes "Escape", 53)
    ∷ (codes "MetaRight", 54)
    ∷ (codes "MetaLeft", 55)
    ∷ (codes "ShiftLeft", 56)
    ∷ (codes "CapsLock", 57)
    ∷ (codes "AltLeft", 58)
    ∷ (codes "ControlLeft", 59)
    ∷ (codes "ShiftRight", 60)
    ∷ (codes "AltRight", 61)
    ∷ (codes "ControlRight", 62)
    ∷ (codes "Fn", 63)
    ∷ (codes "NumpadDecimal", 65)
    ∷ (codes "NumpadMultiply", 67)
    ∷ (codes "NumpadAdd", 69)
    ∷ (codes "NumLock", 71)
    ∷ (codes "NumpadDivide", 75)
    ∷ (codes "NumpadEnter", 76)
    ∷ (codes "NumpadSubtract", 78)
    ∷ (codes "NumpadEqual", 81)
    ∷ (codes "Numpad0", 82)
    ∷ (codes "Numpad1", 83)
    ∷ (codes "Numpad2", 84)
    ∷ (codes "Numpad3", 85)
    ∷ (codes "Numpad4", 86)
    ∷ (codes "Numpad5", 87)
    ∷ (codes "Numpad6", 88)
    ∷ (codes "Numpad7", 89)
    ∷ (codes "Numpad8", 91)
    ∷ (codes "Numpad9", 92)
    ∷ (codes "F5", 96)
    ∷ (codes "F6", 97)
    ∷ (codes "F7", 98)
    ∷ (codes "F3", 99)
    ∷ (codes "F8", 100)
    ∷ (codes "F9", 101)
    ∷ (codes "F11", 103)
    ∷ (codes "F13", 105)
    ∷ (codes "F16", 106)
    ∷ (codes "F14", 107)
    ∷ (codes "F10", 109)
    ∷ (codes "F12", 111)
    ∷ (codes "F15", 113)
    ∷ (codes "Help", 114)
    ∷ (codes "Insert", 114)
    ∷ (codes "Home", 115)
    ∷ (codes "PageUp", 116)
    ∷ (codes "Delete", 117)
    ∷ (codes "F4", 118)
    ∷ (codes "End", 119)
    ∷ (codes "F2", 120)
    ∷ (codes "PageDown", 121)
    ∷ (codes "F1", 122)
    ∷ (codes "ArrowLeft", 123)
    ∷ (codes "ArrowRight", 124)
    ∷ (codes "ArrowDown", 125)
    ∷ (codes "ArrowUp", 126)
    ∷ []

-- ===== src/Input/Windows/Keys.antt =====
-- internal/input/input_windows.go, winVK: from KeyboardEvent.code to the virtual key, and whether
-- it is an extended one. The loops over letters, digits and function keys are written out.
use network_computer.Prelude.{ℕ, Bool, true, false, List, [], ◌∷◌}
use network_computer.Prelude.Bytes.{Bytes, codes}

unfoldable pub win_vk : List (Bytes × (ℕ × Bool))
win_vk =
    (codes "KeyA", (65, false))
    ∷ (codes "KeyB", (66, false))
    ∷ (codes "KeyC", (67, false))
    ∷ (codes "KeyD", (68, false))
    ∷ (codes "KeyE", (69, false))
    ∷ (codes "KeyF", (70, false))
    ∷ (codes "KeyG", (71, false))
    ∷ (codes "KeyH", (72, false))
    ∷ (codes "KeyI", (73, false))
    ∷ (codes "KeyJ", (74, false))
    ∷ (codes "KeyK", (75, false))
    ∷ (codes "KeyL", (76, false))
    ∷ (codes "KeyM", (77, false))
    ∷ (codes "KeyN", (78, false))
    ∷ (codes "KeyO", (79, false))
    ∷ (codes "KeyP", (80, false))
    ∷ (codes "KeyQ", (81, false))
    ∷ (codes "KeyR", (82, false))
    ∷ (codes "KeyS", (83, false))
    ∷ (codes "KeyT", (84, false))
    ∷ (codes "KeyU", (85, false))
    ∷ (codes "KeyV", (86, false))
    ∷ (codes "KeyW", (87, false))
    ∷ (codes "KeyX", (88, false))
    ∷ (codes "KeyY", (89, false))
    ∷ (codes "KeyZ", (90, false))
    ∷ (codes "Digit0", (48, false))
    ∷ (codes "Digit1", (49, false))
    ∷ (codes "Digit2", (50, false))
    ∷ (codes "Digit3", (51, false))
    ∷ (codes "Digit4", (52, false))
    ∷ (codes "Digit5", (53, false))
    ∷ (codes "Digit6", (54, false))
    ∷ (codes "Digit7", (55, false))
    ∷ (codes "Digit8", (56, false))
    ∷ (codes "Digit9", (57, false))
    ∷ (codes "F1", (112, false))
    ∷ (codes "F2", (113, false))
    ∷ (codes "F3", (114, false))
    ∷ (codes "F4", (115, false))
    ∷ (codes "F5", (116, false))
    ∷ (codes "F6", (117, false))
    ∷ (codes "F7", (118, false))
    ∷ (codes "F8", (119, false))
    ∷ (codes "F9", (120, false))
    ∷ (codes "F10", (121, false))
    ∷ (codes "F11", (122, false))
    ∷ (codes "F12", (123, false))
    ∷ (codes "Enter", (13, false))
    ∷ (codes "Escape", (27, false))
    ∷ (codes "Backspace", (8, false))
    ∷ (codes "Tab", (9, false))
    ∷ (codes "Space", (32, false))
    ∷ (codes "CapsLock", (20, false))
    ∷ (codes "ShiftLeft", (160, false))
    ∷ (codes "ShiftRight", (161, true))
    ∷ (codes "ControlLeft", (162, false))
    ∷ (codes "ControlRight", (163, true))
    ∷ (codes "AltLeft", (164, false))
    ∷ (codes "AltRight", (165, true))
    ∷ (codes "MetaLeft", (91, true))
    ∷ (codes "MetaRight", (92, true))
    ∷ (codes "ArrowLeft", (37, true))
    ∷ (codes "ArrowUp", (38, true))
    ∷ (codes "ArrowRight", (39, true))
    ∷ (codes "ArrowDown", (40, true))
    ∷ (codes "Home", (36, true))
    ∷ (codes "End", (35, true))
    ∷ (codes "PageUp", (33, true))
    ∷ (codes "PageDown", (34, true))
    ∷ (codes "Insert", (45, true))
    ∷ (codes "Delete", (46, true))
    ∷ (codes "Semicolon", (186, false))
    ∷ (codes "Equal", (187, false))
    ∷ (codes "Comma", (188, false))
    ∷ (codes "Minus", (189, false))
    ∷ (codes "Period", (190, false))
    ∷ (codes "Slash", (191, false))
    ∷ (codes "Backquote", (192, false))
    ∷ (codes "BracketLeft", (219, false))
    ∷ (codes "Backslash", (220, false))
    ∷ (codes "BracketRight", (221, false))
    ∷ (codes "Quote", (222, false))
    ∷ []

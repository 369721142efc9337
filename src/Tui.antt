-- ===== src/Tui.antt =====
-- src/tui: the components of the terminal interface that keep a state of their own. Drawing is left
-- out, and FTXUI, which hands in the events, is a parameter.
pub mod FileManager
pub mod UserInputs

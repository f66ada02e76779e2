-- ===== src/Gui.antt =====
-- The widgets of scripts/lib/python/rover_utils/rover_utils/gui/widgets.py. What they keep is
-- modelled, and what they do on events; `tkinter` draws, and its events are the steps of the model.
pub mod Entry
pub mod Form
pub mod Fuzzy
mod Tests

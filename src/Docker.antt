-- ===== src/Docker.antt =====
-- The docker wrapper of scripts/lib/python/rover_utils/rover_utils/docker_utils: the command line of
-- cli.py, the defaults of common.py and the client of docker_rover.py. This file has the commands,
-- the values of options and the defaults.
pub mod Cli
pub mod Client
pub mod Main
pub mod Ptrace
mod Tests
use crownet.Prelude.{ℕ, Bool, List, [], ◌∷◌, Text, text}

-- The sub-commands that `parse_args` sets up.
pub data Command : Type 0 where
  omnetpp vadere vadere_gui vadere_postvis sumo sumo_gui : Command

-- What an option's value may be.
pub data Value : Type 0 where
  absent : Value
  str : Text → Value
  num : ℕ → Value
  flag : Bool → Value
  words : List Text → Value

-- `Cfg.default_cgf`: the command and the image of each sub-command, and the network.
pub default_cmd : Command → List Text
default_cmd omnetpp = text "omnetpp" ∷ []
default_cmd vadere = text "/init.sh" ∷ []
default_cmd vadere_gui =
    text "java" ∷ text "-jar" ∷ text "/opt/vadere/vadere/VadereGui/target/vadere-gui.jar" ∷ []
default_cmd vadere_postvis =
    text "java" ∷ text "-jar" ∷ text "/opt/vadere/vadere/VadereGui/target/vadere-postvis.jar" ∷ []
default_cmd sumo = text "/init.sh" ∷ []
default_cmd sumo_gui = text "sumo-gui" ∷ []

pub default_image_name : Command → Text
default_image_name omnetpp = text "omnetpp"
default_image_name vadere = text "vadere"
default_image_name vadere_gui = text "vadere"
default_image_name vadere_postvis = text "vadere"
default_image_name sumo = text "sumo"
default_image_name sumo_gui = text "sumo"

pub intnet : Text
intnet = text "rovernet"

-- ===== src/Lib.antt =====
-- Parts of CrowNet's Python tools.
--
-- CrowNet couples the simulators OMNeT++, SUMO and Vadere, which are written in other languages.
-- Its Python code prepares what they read, starts them in containers and evaluates what they
-- write. The parts that are modelled do not call each other; each stands beside a simulation:
--
-- Module Enb: crownet/simulations/multi_enb/generate_enb_grid.py places base stations on a grid
-- and writes their configuration. `create_enb_position` is the numbering of the positions,
-- `neighbor_index` the neighbours of a station, `create_links` and `create_enb_config` the pairs
-- of stations that are connected and the lines of the file. A position is whatever the coordinate
-- transformation gives, a parameter.
--
-- Module Trace: crownet/simulations/multi_enb/sumo/clean_sumo_traces.py reads the traces of
-- pedestrians, finds those that jump, and cuts their routes there. Read has `BonnMotionReader`,
-- `row` and `BmTraceInfo`, Extract `extract_steps` and `run`, Report what `main` writes of the
-- steps. `Trace` has the fields of a trace with its cursor; each method takes it and returns it
-- with its result. Seek has `get_step_at` and `go_to_time`, Walk `print_route` and
-- `find_edge_match`, Update `dict_by_id` and `update_route`, on the persons of a route file in
-- place of the XML text. The fuel of `find` is more than the points of the trace and the number
-- of the cursor's point together: each round moves by one point in one direction. The order in
-- which pandas sorts equal times is a parameter, and so are its test for a missing value and the
-- reading of a number. Floats are the record of Floats. Printing is left out.
--
-- Module BonnMotion: crownet/simulations/muenchnerFreiheit/timoKlein/BonnMotion/rndBonnMotion.py
-- draws lines of a BonnMotion file. `main` is the whole run, with the lines that it writes and
-- prints; the record `Random` stands for Python's generator. The loop that draws has one round
-- for each unit of fuel; w * n + 1 are enough for n lines if each number comes round within w
-- draws.
--
-- Module SumoRuns: crownet/simulations/multi_enb/sumo/run_sumo_simulations.py starts one
-- container for each simulation. `ContainerList` has the names of the containers and what has
-- happened to them; its methods and the functions that use it are named as in the code. The
-- argument lists and directories of crownetutils and the host are the records `ArgLists` and
-- `Host`; `run_sorted` is what two of the functions have in common.
--
-- Module Control: the controllers of crowds in the folders route_choice_app,
-- mucFreiheit_route_choice_app, testSim and guiding_crowds_test of crownet/simulations. Each
-- method gives its result, the object after it and the calls that it makes on the simulator, the
-- data processors and the time stepper, in their order. Route has `LocalController` and the
-- classes that inherit from it, as the constructors of `Controller`, Munich the `AvoidShort` with
-- a map of densities, TestSim both `ChangeTarget`, PingPong the class of that name. The record
-- `Flow` stands for flowcontrol, which also calls the steps: a session is `handle_init`, any list
-- of steps, and `write_data`. Times are tenths of a second. A message is the object that the code
-- turns into JSON.
--
-- Module Docker: scripts/lib/python/rover_utils/rover_utils/docker_utils starts containers. Cli
-- has the options and `parse_args` of cli.py, from the options that `argparse` has recognised;
-- Client has `RoverClient` of docker_rover.py; Main the functions of the sub-commands, Ptrace the
-- check of the host by itself. The defaults of common.py are copied only one level deep, so
-- `Process` keeps the lists and the environment that all clients share, and a command is a
-- reference to such a list or to one of its own. The docker daemon is the record `DockerClient`.
-- The fuel of `check_create_name` is one more than the names in use: the names that it tries all
-- differ.
--
-- Module Gui: scripts/lib/python/rover_utils/rover_utils/gui/widgets.py. Entry and Form have the
-- entries with placeholders and the form, Fuzzy the list that a query narrows; the events of
-- `tkinter` are functions on the state. `extractBests` of fuzzywuzzy is a parameter.
--
-- Module Sampling: analysis/uq/uq/PreProcessing. Parameters has Parameter.py and what
-- sampling/Base.py does to parameters, MonteCarlo the sampling classes of sampling/MonteCarlo.py,
-- told apart by `Method`. The records `Stats` and `Generators` stand for numpy, scipy and SALib.
-- `get_independent_samples` takes the depth of nested calls that Python allows, any number. Files
-- has sampling/GaussianQuadrature.py, `to_dict` of sampling/Base.py and `read_json` of
-- sampling/utils.py, on a file that has been parsed; the record `Chaos` stands for chaospy and the
-- comparison of matrices.
--
-- Module Evaluation: analysis/uq/uq/PostProcessing. Evaluation has `SensitivityAnalysis` of
-- UQMethods/SensitivityAnalysis.py, from the values that are grouped by their times, Surrogate the
-- models of SurrogateModels.py, the analyses with a surrogate model and with an ensemble of them,
-- and ForwardPropagation.py. The record `Tools` stands for numpy, pandas, SALib and pykrige.
--
-- Module Study: crownet/simulations/cmp_vadere_sumo/study/study.py compares mobility models. Study
-- has the analysis of a configuration, Memory `run_parameter_study` with its wait for memory, Main
-- the script with the files that keep its results. The record `Tools` stands for pandas, the data
-- of a simulation and the times at which the failures of a pool's processes arrive, `Tables` for
-- tables in files, `Host` for the computer and suqc. The loop that waits has a number of retries
-- in the code too.
--
-- Module Guiding: analysis/uq/simulation_studies/guiding_crowds_forward_propagation/
-- run_simulations.py. `run_controller` is the run of one strategy in a docker network, `script`
-- what stands under `__main__`.
--
-- Module Positions: crownet/simulations/densityMap/study/mf_stationary_m_single_cell.py, the files
-- of random positions. `config_match` is its regular expression, `get_traces` the groups of files,
-- `variations` the loop of `main`.
--
-- Prelude passes on the library's names and has Python's lists, dicts, texts and exceptions. A
-- method that may raise returns a `Result`; where the code goes on after an exception, the state
-- is returned beside it, as States has it for any object.
--
-- Not modelled: the simulation models in C++, the printers for the debugger, the scripts that
-- plot results or only list the parameters of a study, the frames of QuantityOfInterest.py, and
-- files, processes and windows themselves.
-- Numbers that the code keeps in floats are either a parameter or, where they are whole, ℕ.
pub mod Prelude
pub mod Floats
pub mod Evaluation
pub mod Gui
pub mod Guiding
pub mod Positions
pub mod Sampling
pub mod Enb
pub mod SumoRuns
pub mod States
pub mod Study
pub mod Trace
pub mod BonnMotion
pub mod Control
pub mod Docker
